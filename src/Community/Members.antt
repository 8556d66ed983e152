-- ===== src/Community/Members.antt =====
-- Subscribing and unsubscribing while the database answers.
use slps_team.Prelude.{
  is_one_of, ℕ, suc, ap, sym, ◌∙◌, arith, ◌≡◌, refl, Bool, true, false, not, ◌==◌, any, keep, tally,
  Bool-cases, inl, inr, List, [], ◌∷◌, Option, none, some, if◌then◌else◌,
}
use slps_team.Errors.{Sentinel, sentinel}
use slps_team.Flow.{Result, ok, err, ◌>>◌, continue, handled, flow_steps}
use slps_team.Sql.{Db, sql_steps}
use slps_team.Sql.Calm.{IsCalm}
use slps_team.Uploads.{Names}
use slps_team.Backend.{on_db_run}
use slps_team.Community.{CommunityRow, CommunityForView, Subscription, CommunityTables}
use slps_team.Community.Table.{
  has_id, is_subscription, subscribers, select_community, with_count, insert_subscription,
  delete_subscriptions,
}
use slps_team.Community.Store.{
  get_community_by_id, subscribe_row, unsubscribe_row, is_subscribed_row, community_or_not_found,
}
use slps_team.Community.Service.{
  Clients, World, existing_community, subscribe, unsubscribe, get_community, missing_or_db,
}

-- The world after a statement.
abbrev pub ticked : World → World
ticked w = record w { db = record (w.db) { statements = suc w.db.statements } }

abbrev pub written : CommunityTables → World → World
written t w = record w { db = record (w.db) { tables = t; statements = suc w.db.statements } }

module _ (id : ℕ) (db : Db CommunityTables) (calm : IsCalm db.env) where
  abbrev after_one : CommunityTables → Db CommunityTables
  after_one t = record db { tables = t; statements = suc db.statements }

  looked_up :
      (o : Option CommunityRow)
      → select_community id db.tables.communities ≡ o
      → get_community_by_id id db
        ≡ community_or_not_found
            (elim o [ none ↦ none | some c ↦ some (with_count db.tables c) ])
            (after_one db.tables)
  unfolding get_community_by_id
  looked_up o e =
      simp (calm.answers db.statements, sql_steps)
        (ap
          (λ (x : Option CommunityRow).
            community_or_not_found (elim x [ none ↦ none | some c ↦ some (with_count db.tables c) ])
              (after_one db.tables))
          e)

  module _ (u : ℕ) where
    subscribe_row_calm :
        (n : ℕ) (t : CommunityTables)
        → insert_subscription id u (db.env.time db.statements) db.tables ≡ some (n, t)
        → subscribe_row id u db ≡ (ok tt, after_one t)
    unfolding subscribe_row
    subscribe_row_calm n t e = simp (calm.answers db.statements, e, sql_steps)

    unsubscribe_row_calm :
        tally (is_subscription id u) db.tables.subscriptions == 0 ≡ false
        → unsubscribe_row id u db ≡ (
          ok tt,
          after_one (record (db.tables) {
            subscriptions = keep (λ s. not (is_subscription id u s)) db.tables.subscriptions;
          }),
        )
    unfolding unsubscribe_row delete_subscriptions
    unsubscribe_row_calm some_rows =
        simp (calm.answers db.statements, calm.readable (suc db.statements), some_rows, sql_steps)

    is_subscribed_calm :
        is_subscribed_row id u db
        ≡ (ok (any (is_subscription id u) db.tables.subscriptions), after_one db.tables)
    unfolding is_subscribed_row
    is_subscribed_calm = simp (calm.answers db.statements, sql_steps)

module _ (id : ℕ) (w : World) (calm : IsCalm w.db.env) where
  pub existing_calm :
      (c : CommunityRow)
      → select_community id w.db.tables.communities ≡ some c
      → existing_community id w ≡ (ok (with_count w.db.tables c), ticked w)
  unfolding existing_community
  existing_calm c there =
      ap (handled missing_or_db) (on_db_run _ w _ (looked_up id w.db calm (some c) there))

  pub existing_missing :
      select_community id w.db.tables.communities ≡ none
      → existing_community id w ≡ (err (sentinel Sentinel.not_found), ticked w)
  unfolding existing_community
  existing_missing gone =
      ap (handled missing_or_db) (on_db_run _ w _ (looked_up id w.db calm none gone))

  subscribe_calm :
      (names : Names) (clients : Clients) (u : ℕ) (c : CommunityRow) (n : ℕ) (t : CommunityTables)
      → select_community id w.db.tables.communities ≡ some c
      → clients.is_user_exists u ≡ ok true
      → insert_subscription id u (w.db.env.time (suc w.db.statements)) w.db.tables ≡ some (n, t)
      → subscribe names clients id u w ≡ (ok tt, written t (ticked w))
  unfolding subscribe
  subscribe_calm names clients u c n t there known e =
      simp (existing_calm c there, known, flow_steps)
        (ap (handled (λ _. Sentinel.db))
          (on_db_run _ (ticked w) _ (subscribe_row_calm id (ticked w).db calm u n t e)))

  unsubscribe_calm :
      (u : ℕ)
      → tally (is_subscription id u) w.db.tables.subscriptions == 0 ≡ false
      → unsubscribe id u w ≡ (
        ok tt,
        written
            (record (w.db.tables) {
              subscriptions = keep (λ s. not (is_subscription id u s)) w.db.tables.subscriptions;
            })
            w,
      )
  unfolding unsubscribe
  unsubscribe_calm u some_rows =
      ap (handled missing_or_db) (on_db_run _ w _ (unsubscribe_row_calm id w.db calm u some_rows))

  pub get_community_calm :
      (u : ℕ) (c : CommunityRow)
      → select_community id w.db.tables.communities ≡ some c
      → get_community u id w ≡ (
        ok (record {
          community = with_count w.db.tables c;
          is_subscribed = any (is_subscription id u) w.db.tables.subscriptions;
        }),
        ticked (ticked w),
      )
  unfolding get_community
  get_community_calm u c there =
      simp (existing_calm c there, flow_steps)
        (ap
          (λ (x : Result Bool × World).
            continue
              (λ b s. (ok (record { community = with_count w.db.tables c; is_subscribed = b }), s))
              (handled (λ _. Sentinel.db) x))
          (on_db_run _ (ticked w) _ (is_subscribed_calm id (ticked w).db calm u)))

select_any :
    (id : ℕ) (cs : List CommunityRow) (c : CommunityRow)
    → select_community id cs ≡ some c
    → (any (has_id id) cs ≡ true) × (c.id ≡ id)
select_any id [] c e = absurd (cc)
select_any id (d ∷ ds) c e = elim (Bool-cases (d.id == id)) [
  | inl it ↦ ground (arith, it, e)
  | inr other ↦ ground (arith, other, e, select_any id ds c)
]

keep_all :
    (id u : ℕ) (ss : List Subscription)
    → any (is_subscription id u) ss ≡ false
    → keep (λ s. not (is_subscription id u s)) ss ≡ ss
keep_all id u [] e = refl
keep_all id u (s ∷ ss) e = ground (arith, e, keep_all id u ss)

module _ (names : Names) (clients : Clients) (id u : ℕ) (c : CommunityRow) (w : World)
    (calm : IsCalm w.db.env) (there : select_community id w.db.tables.communities ≡ some c)
    (exists : clients.is_user_exists u ≡ ok true)
    (user : is_one_of w.db.tables.users u ≡ true) where
  -- The tables after a first subscription.
  unfoldable pub joining : CommunityTables
  joining = record (w.db.tables) {
    subscriptions =
        record { community_id = id; user_id = u; created_at = w.db.env.time (suc w.db.statements) }
        ∷ w.db.tables.subscriptions;
  }

  subscribe_first :
      any (is_subscription id u) w.db.tables.subscriptions ≡ false
      → subscribe names clients id u w ≡ (ok tt, written joining (ticked w))
  unfolding insert_subscription joining
  subscribe_first new =
      subscribe_calm id w calm names clients u c 1 joining there exists
        (rw (new, (select_any id w.db.tables.communities c there).0, user) refl)

  subscribe_again :
      any (is_subscription id u) w.db.tables.subscriptions ≡ true
      → subscribe names clients id u w ≡ (ok tt, written w.db.tables (ticked w))
  unfolding insert_subscription
  subscribe_again old =
      subscribe_calm id w calm names clients u c 0 w.db.tables there exists (rw old refl)

  abbrev seen : ℕ → Bool → Result CommunityForView
  seen n b =
      ok (record { community = record { row = c; subscribers_count = n }; is_subscribed = b })

  of_row : subscribers c.id w.db.tables.subscriptions ≡ subscribers id w.db.tables.subscriptions
  of_row =
      ap (λ i. subscribers i w.db.tables.subscriptions)
        (select_any id w.db.tables.communities c there).1

  one_more : subscribers c.id joining.subscriptions ≡ suc (subscribers id w.db.tables.subscriptions)
  unfolding joining
  one_more =
      ap (λ i. subscribers i joining.subscriptions)
        (select_any id w.db.tables.communities c there).1
      ∙ ground arith

  is_in : any (is_subscription id u) joining.subscriptions ≡ true
  unfolding joining
  is_in = ground arith

  -- While the database answers, for a community that exists and a user that both the auth service
  -- and the table know: subscribing succeeds, and then the community is seen as subscribed to, with
  -- one subscriber more if the user was new and as many as before otherwise; the tables have the one
  -- new row in the first case, and are as before in the second.
  subscribe-get_community :
      let joined : Bool = any (is_subscription id u) w.db.tables.subscriptions in
      let count : ℕ = subscribers id w.db.tables.subscriptions in
      let w' = (subscribe names clients id u w).1 in
      ((subscribe names clients id u w).0 ≡ ok tt)
      × ((get_community u id w').0
          ≡ ok (record {
            community = record { row = c; subscribers_count = if joined then count else suc count };
            is_subscribed = true;
          }))
      × (w'.db.tables ≡ (if joined then w.db.tables else joining))
  unfolding joining
  subscribe-get_community =
      elim (Bool-cases (any (is_subscription id u) w.db.tables.subscriptions)) [
        | inl old ↦ (
          rw (subscribe_again old) refl,
          rw
              (
                subscribe_again old,
                get_community_calm id (written w.db.tables (ticked w)) calm u c there,
                old,
              )
              (ap (λ n. seen n true) of_row),
          rw (subscribe_again old, old) refl,
        )
        | inr new ↦ (
          rw (subscribe_first new) refl,
          rw
              (
                subscribe_first new,
                get_community_calm id (written joining (ticked w)) calm u c there,
              )
              (ap (λ n. seen n (any (is_subscription id u) joining.subscriptions)) one_more
                ∙ ap (seen (suc (subscribers id w.db.tables.subscriptions))) is_in
                ∙ ap
                    (λ (b : Bool).
                      seen
                        (if b
                          then subscribers id w.db.tables.subscriptions
                          else suc (subscribers id w.db.tables.subscriptions))
                        true)
                    (sym new)),
          ap (λ (r : Result (Unit {0}) × World). r.1.db.tables) (subscribe_first new)
              ∙ ap (λ (b : Bool). if b then w.db.tables else joining) (sym new),
        )
      ]

  -- While the database answers, for a community and a user that exist, both for the table of users and
  -- for the profile service, and a user that is not subscribed to the community: subscribing and then
  -- unsubscribing succeeds, and leaves the tables exactly as they were.
  pub subscribe-unsubscribe :
      any (is_subscription id u) w.db.tables.subscriptions ≡ false
      → let after = (subscribe names clients id u >> unsubscribe id u) w in
        (after.0 ≡ ok tt) × (after.1.db.tables ≡ w.db.tables)
  unfolding joining
  subscribe-unsubscribe new =
      let some_rows : tally (is_subscription id u) joining.subscriptions == 0 ≡ false =
        ground arith in
      let cleaned : keep (λ s. not (is_subscription id u s)) joining.subscriptions
          ≡ w.db.tables.subscriptions =
        ground (arith, keep_all id u w.db.tables.subscriptions new) in
      rw (subscribe_first new) (
        rw (unsubscribe_calm id (written joining (ticked w)) calm u some_rows)
          (refl, ap (λ ss. record (w.db.tables) { subscriptions = ss }) cleaned))
