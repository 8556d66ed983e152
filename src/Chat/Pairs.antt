-- ===== src/Chat/Pairs.antt =====
-- The chat of two users, while the database answers.
use slps_team.Prelude.{
  is_one_of, ℕ, suc, ap, sym, subst, ◌≡◌, arith, true, false, ◌==◌, ◌∙◌, Option, map, Bool-cases,
  any, List, ◌∷◌, none, some, Option-cases, inl, inr,
}
use slps_team.Errors.{Sentinel}
use slps_team.Flow.{Result, ok, handled, flow_steps}
use slps_team.Sql.{Db, sql_steps}
use slps_team.Sql.Calm.{IsCalm}
use slps_team.Backend.{on_db_run}
use slps_team.Chat.{MemberRow, ChatTables}
use slps_team.Chat.Table.{is_member, has_both, select_pair, insert_chat, new_member, insert_members}
use slps_team.Chat.Store.{ordered_ids, get_or_create_chat_row}
use slps_team.Chat.Service.{World, Clients, get_or_create_chat}
use slps_team.Chat.Keys.{
  IsKeyed, no_row, both_in, ordered_swap, ordered_differ, ordered_any, any_ordered, both_listed,
  both_ordered, some_picked, picked_passes,
}

-- The tables with a chat of two users more.
abbrev pub with_pair : ℕ → ℕ → ChatTables → ChatTables
with_pair a b t = record t {
  chats = record { id = t.next_chat; is_group = false; name = none; avatar = none } ∷ t.chats;
  members = new_member t.next_chat a ∷ new_member t.next_chat b ∷ t.members;
  next_chat = suc t.next_chat;
}

module _ (a b : ℕ) (db : Db ChatTables) (calm : IsCalm db.env) where
  found_pair :
      let (x, y) = ordered_ids a b in
      (id : ℕ)
      → select_pair (db.env.pick (suc db.statements)) x y db.tables ≡ some id
      → get_or_create_chat_row a b db
        ≡ (ok id, record db { statements = suc (suc (suc db.statements)) })
  unfolding get_or_create_chat_row
  found_pair id e = simp (
    calm.answers db.statements,
    calm.answers (suc db.statements),
    calm.answers (suc (suc db.statements)),
    e,
    sql_steps,
  )

  new_pair :
      let (x, y) = ordered_ids a b in
      select_pair (db.env.pick (suc db.statements)) x y db.tables ≡ none
      → insert_members db.tables.next_chat x y (record (db.tables) {
        chats =
            record { id = db.tables.next_chat; is_group = false; name = none; avatar = none }
            ∷ db.tables.chats;
        next_chat = suc db.tables.next_chat;
      })
        ≡ some (2, with_pair x y db.tables)
      → get_or_create_chat_row a b db ≡ (
        ok db.tables.next_chat,
        record db {
          tables = with_pair x y db.tables;
          statements = suc (suc (suc (suc (suc db.statements))));
        },
      )
  unfolding get_or_create_chat_row insert_chat
  new_pair e f = simp (
    calm.answers db.statements,
    calm.answers (suc db.statements),
    calm.answers (suc (suc db.statements)),
    calm.answers (suc (suc (suc db.statements))),
    calm.answers (suc (suc (suc (suc db.statements)))),
    e,
    f,
    sql_steps,
  )

-- Both users exist, for the auth service and for the table.
pub record AreKnown (c : Clients) (a b : ℕ) (t : ChatTables) : Type 0 where
  pub first_exists : c.is_user_exists a ≡ ok true
  pub second_exists : c.is_user_exists b ≡ ok true
  pub first_known : is_one_of t.users a ≡ true
  pub second_known : is_one_of t.users b ≡ true

module _ (c : Clients) (a b : ℕ) (other : a == b ≡ false) where
  service_run :
      (w : World) (x : Result ℕ × Db ChatTables)
      → c.is_user_exists b ≡ ok true
      → get_or_create_chat_row a b w.db ≡ x
      → get_or_create_chat c a b w ≡ handled (λ _. Sentinel.db) (x.0, record w { db = x.1 })
  unfolding get_or_create_chat
  service_run w x exists e =
      let differ : b == a ≡ false = ground (arith, other) in
      simp (exists, differ, flow_steps) (ap (handled (λ _. Sentinel.db)) (on_db_run _ w x e))

  -- The answer of a first call, a chat that is the only one of the two users afterwards.
  IsPair : World → ℕ → World → Type 0
  IsPair w id w' =
      (get_or_create_chat c a b w ≡ (ok id, w'))
      × (any (is_member id a) w'.db.tables.members ≡ true)
      × (any (is_member id b) w'.db.tables.members ≡ true)
      × (has_both (ordered_ids a b).0 (ordered_ids a b).1 w'.db.tables.members id ≡ true)
      × ((j : ℕ)
          → has_both (ordered_ids a b).0 (ordered_ids a b).1 w'.db.tables.members j ≡ true
          → j ≡ id)

  -- Whatever is picked in such tables.
  pair_picked :
      (k id : ℕ) (t : ChatTables)
      → has_both (ordered_ids a b).0 (ordered_ids a b).1 t.members id ≡ true
      → ((j : ℕ) → has_both (ordered_ids a b).0 (ordered_ids a b).1 t.members j ≡ true → j ≡ id)
      → select_pair k (ordered_ids a b).0 (ordered_ids a b).1 t ≡ some id
  unfolding select_pair
  pair_picked k id t it only =
      let (x, y) = ordered_ids a b in
      let ids = map (λ (m : MemberRow). m.chat_id) t.members in
      let (j, e) =
        some_picked (has_both x y t.members) k id ids (both_listed x y id t.members it) it in
      e ∙ ap some (only j (picked_passes (has_both x y t.members) k j ids e))

  module _ (w : World) (calm : IsCalm w.db.env) (known : AreKnown c a b w.db.tables)
      (keyed : IsKeyed w.db.tables)
      (single : (i j : ℕ)
        → has_both a b w.db.tables.members i ≡ true
        → has_both a b w.db.tables.members j ≡ true
        → i ≡ j) where
    abbrev x : ℕ
    x = (ordered_ids a b).0

    abbrev y : ℕ
    y = (ordered_ids a b).1

    abbrev k : ℕ
    k = w.db.env.pick (suc w.db.statements)

    found_IsPair :
        (id : ℕ)
        → select_pair k x y w.db.tables ≡ some id
        → IsPair w id
            (record w { db = record (w.db) { statements = suc (suc (suc w.db.statements)) } })
    unfolding IsPair select_pair
    found_IsPair id e =
        let rows = w.db.tables.members in
        let it =
          picked_passes (has_both x y rows) k id (map (λ (m : MemberRow). m.chat_id) rows) e in
        let both =
          ordered_any a b other (λ u. any (is_member id u) rows)
            (both_in x y id rows (ordered_differ a b other) keyed.keys it) in
        (
          service_run w _ known.second_exists (found_pair a b w.db calm id e),
          both.0,
          both.1,
          it,
          λ j that.
              single j id (sym (both_ordered a b j rows) ∙ that)
                (sym (both_ordered a b id rows) ∙ it),
        )

    inserts :
        insert_members w.db.tables.next_chat x y (record (w.db.tables) {
          chats =
              record { id = w.db.tables.next_chat; is_group = false; name = none; avatar = none }
              ∷ w.db.tables.chats;
          next_chat = suc w.db.tables.next_chat;
        })
        ≡ some (2, with_pair x y w.db.tables)
    unfolding insert_members
    inserts =
        let users =
          any_ordered a b other (is_one_of w.db.tables.users)
            (known.first_known, known.second_known) in
        ground (
          arith,
          users,
          ordered_differ a b other,
          no_row x y w.db.tables.next_chat w.db.tables.members keyed.made,
        )

    new_IsPair :
        select_pair k x y w.db.tables ≡ none
        → IsPair w w.db.tables.next_chat (record w {
          db = record (w.db) {
            tables = with_pair x y w.db.tables;
            statements = suc (suc (suc (suc (suc w.db.statements))));
          };
        })
    unfolding IsPair select_pair
    new_IsPair e =
        let n : ℕ = w.db.tables.next_chat in
        let rows : List MemberRow = new_member n x ∷ new_member n y ∷ w.db.tables.members in
        let both =
          ordered_any a b other (λ u. any (is_member n u) rows) (ground arith, ground arith) in
        let two : has_both x y rows n ≡ true =
          ground (arith, ordered_differ a b other, no_row x y n w.db.tables.members keyed.made) in
        (
          service_run w _ known.second_exists (new_pair a b w.db calm e inserts),
          both.0,
          both.1,
          two,
          λ j that. elim (Bool-cases (n == j)) [
            | inl same ↦ ground (arith, same)
            | inr apart ↦
                let old : has_both x y w.db.tables.members j ≡ true = ground (arith, that, apart) in
                let (i, found) =
                  some_picked (has_both x y w.db.tables.members) k j
                    (map (λ (m : MemberRow). m.chat_id) w.db.tables.members)
                    (both_listed x y j w.db.tables.members old) old in
                absurd (some_none i (sym found ∙ e))
          ],
        )
      where
        some_none : (i : ℕ) → ◌≡◌ {A = Option ℕ} (some i) none → ⊥
        some_none i e = cc

    first_call : (id : ℕ) × (w' : World) × IsPair w id w' × IsCalm w'.db.env
    first_call = elim (Option-cases (select_pair k x y w.db.tables)) [
      | inl new ↦ (_, _, new_IsPair new, calm)
      | inr (id, old) ↦ (_, _, found_IsPair id old, calm)
    ]

-- While the database answers, whichever row a LIMIT without an order picks, for two users that exist,
-- and tables where the key of chat_members is kept, its chats have been made, and at most one chat has
-- rows of both users: asking for the chat of the two gives one with both of them as members, and
-- whichever of the two asks next is given the same chat, with no change of the tables.
pub get_or_create_chat-again :
    (c : Clients) (a b : ℕ) (w : World)
    → a == b ≡ false
    → IsCalm w.db.env
    → AreKnown c a b w.db.tables
    → IsKeyed w.db.tables
    → ((i j : ℕ)
        → has_both a b w.db.tables.members i ≡ true
        → has_both a b w.db.tables.members j ≡ true
        → i ≡ j)
    → (id : ℕ) × (w' : World) × (get_or_create_chat c a b w ≡ (ok id, w'))
      × (any (is_member id a) w'.db.tables.members ≡ true)
      × (any (is_member id b) w'.db.tables.members ≡ true)
      × ((get_or_create_chat c a b w').0 ≡ ok id)
      × ((get_or_create_chat c a b w').1.db.tables ≡ w'.db.tables)
      × ((get_or_create_chat c b a w').0 ≡ ok id)
      × ((get_or_create_chat c b a w').1.db.tables ≡ w'.db.tables)
unfolding IsPair
get_or_create_chat-again c a b w other calm known keyed single =
    let (id, w', (run, in_a, in_b, it, only), still) =
      first_call c a b other w calm known keyed single in
    let found =
      pair_picked c a b other (w'.db.env.pick (suc w'.db.statements)) id w'.db.tables it only in
    let again =
      service_run c a b other w' _ known.second_exists (found_pair a b w'.db still id found) in
    let swapped = service_run c b a (ground (arith, other)) w' _ known.first_exists (
      found_pair b a w'.db still id (
        subst
          (λ p. select_pair (w'.db.env.pick (suc w'.db.statements)) p.0 p.1 w'.db.tables ≡ some id)
          (sym (ordered_swap a b other)) found)) in
    (
      id,
      w',
      run,
      in_a,
      in_b,
      ap (λ (r : Result ℕ × World). r.0) again,
      ap (λ (r : Result ℕ × World). r.1.db.tables) again,
      ap (λ (r : Result ℕ × World). r.0) swapped,
      ap (λ (r : Result ℕ × World). r.1.db.tables) swapped,
    )
