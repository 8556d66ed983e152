-- ===== src/Friend/Lists.antt =====
-- The lists and the counts of a user's relations, against each other.
use slps_team.Prelude.{
  ℕ, suc, ◌+◌, ◌≡◌, ◌≢◌, refl, ap, sym, ◌∙◌, arith, Bool, true, ◌&&◌, ◌==◌, List, [], ◌∷◌, keep,
  any, all, tally, length, Option, Option, some,
}
use slps_team.Flow.{Result, ok}
use slps_team.Sql.{Db, sql_steps}
use slps_team.Friend.{
  FriendshipCountType, UserRelationsCounts, Row, Tables, satisfies_constraints, in_enum,
}
use slps_team.Friend.Table.{
  related, involves, other_user, is_accepted, is_blocked, is_incoming, is_sent,
}
use slps_team.Friend.Store.{
  status_clause, ids_by_clause, relations_of, count_user_relations, get_user_ids_by_friend_type,
}
use slps_team.Friend.Constraints.{IsValid}
use slps_team.Friend.Lifecycle.Calm.{IsCalm}

module _ (users : List ℕ) (u : ℕ) where
  length-related :
      (test : Row → Bool) (rows : List Row)
      → length (related u test rows) ≡ tally test (keep (involves u) rows)
  length-related test [] = refl
  length-related test (r ∷ rs) = ground (arith, length-related test rs)

  enum_of : (r : Row) → satisfies_constraints users r ≡ true → in_enum r.status ≡ true
  unfolding satisfies_constraints
  enum_of r h = ground arith

  -- One of the four kinds, and only one.
  one_kind :
      (r : Row)
      → in_enum r.status ≡ true
      → tally is_accepted (r ∷ [])
          + tally (is_incoming u) (r ∷ [])
          + tally (is_sent u) (r ∷ [])
          + tally is_blocked (r ∷ [])
        ≡ 1
  one_kind r h = ground arith

  same_incoming :
      (rows : List Row)
      → (relations_of u rows).pending ≡ tally (is_incoming u) (keep (involves u) rows)
  same_incoming [] = refl
  same_incoming (r ∷ rs) = ground (arith, same_incoming rs)

  same_sent :
      (rows : List Row) → (relations_of u rows).sent ≡ tally (is_sent u) (keep (involves u) rows)
  same_sent [] = refl
  same_sent (r ∷ rs) = ground (arith, same_sent rs)

  relations_total :
      (rows : List Row)
      → all (satisfies_constraints users) rows ≡ true
      → let c = relations_of u rows in
        c.accepted + c.pending + c.sent + c.blocked ≡ tally (λ _. true) (keep (involves u) rows)
  relations_total [] h = refl
  relations_total (r ∷ rs) h = ground (arith, relations_total rs, enum_of r)

module _ (users : List ℕ) (a b : ℕ) (other : a ≢ b) where
  mirror_row :
      (r : Row)
      → satisfies_constraints users r ≡ true
      → (involves a r && is_incoming a r && other_user a r == b)
        ≡ (involves b r && is_sent b r && other_user b r == a)
  unfolding satisfies_constraints
  mirror_row r h = ground arith

  friend_row :
      (r : Row)
      → satisfies_constraints users r ≡ true
      → (involves a r && is_accepted r && other_user a r == b)
        ≡ (involves b r && is_accepted r && other_user b r == a)
  unfolding satisfies_constraints
  friend_row r h = ground arith

  any-mirror :
      (rows : List Row)
      → all (satisfies_constraints users) rows ≡ true
      → any (λ v. v == b) (related a (is_incoming a) rows)
        ≡ any (λ v. v == a) (related b (is_sent b) rows)
  any-mirror [] h = refl
  any-mirror (r ∷ rs) h = ground (arith, any-mirror rs, mirror_row r)

  any-friend :
      (rows : List Row)
      → all (satisfies_constraints users) rows ≡ true
      → any (λ v. v == b) (related a is_accepted rows)
        ≡ any (λ v. v == a) (related b is_accepted rows)
  any-friend [] h = refl
  any-friend (r ∷ rs) h = ground (arith, any-friend rs, friend_row r)

-- The ids that the store lists for a kind.
abbrev pub ids_of : FriendshipCountType → ℕ → Db Tables → Result (List ℕ)
ids_of ty u db = (get_user_ids_by_friend_type u ty db).0

abbrev pub HasSize : Result (List ℕ) → ℕ → Type 0
HasSize r n = (xs : List ℕ) × (r ≡ ok xs) × (length xs ≡ n)

-- Two lists that were read, the first of which has `b` where the second has `a`.
abbrev pub Mirror : ℕ → ℕ → Result (List ℕ) → Result (List ℕ) → Type 0
Mirror a b r r' =
    (xs : List ℕ) × (ys : List ℕ) × (r ≡ ok xs)
    × (r' ≡ ok ys)
    × (any (λ v. v == b) xs ≡ any (λ v. v == a) ys)

module _ (db : Db Tables) (calm : IsCalm db.env) where
  clause_calm :
      (u : ℕ) (test : Row → Bool)
      → (ids_by_clause u (some test) db).0 ≡ ok (related u test db.tables.rows)
  clause_calm u test =
      simp (calm.answers db.statements, calm.readable (suc db.statements), sql_steps)

  ids_calm :
      (u : ℕ) (ty : FriendshipCountType) (test : Row → Bool)
      → status_clause u ty ≡ some test
      → ids_of ty u db ≡ ok (related u test db.tables.rows)
  unfolding get_user_ids_by_friend_type
  ids_calm u ty test e =
      ap (λ (clause : Option (Row → Bool)). (ids_by_clause u clause db).0) e ∙ clause_calm u test

  ids-HasSize :
      (u : ℕ) (ty : FriendshipCountType) (test : Row → Bool) (n : ℕ)
      → status_clause u ty ≡ some test
      → n ≡ tally test (keep (involves u) db.tables.rows)
      → HasSize (ids_of ty u db) n
  ids-HasSize u ty test n e m =
      (_, ids_calm u ty test e, length-related db.tables.users u test db.tables.rows ∙ sym m)

  count_calm : (u : ℕ) → (count_user_relations u db).0 ≡ ok (relations_of u db.tables.rows)
  unfolding count_user_relations
  count_calm u = simp (calm.answers db.statements, calm.readable (suc db.statements), sql_steps)

  -- On a table that meets its constraints, while the database answers: each count of a user's
  -- relations is the length of the list of that kind, and the four counts add up to the length of
  -- the list of everyone the user has a row with.
  pub counts-HasSize :
      (u : ℕ)
      → IsValid db.tables
      → (c : UserRelationsCounts) × ((count_user_relations u db).0 ≡ ok c)
        × HasSize (ids_of FriendshipCountType.count_accepted u db) c.accepted
        × HasSize (ids_of FriendshipCountType.count_pending u db) c.pending
        × HasSize (ids_of FriendshipCountType.count_sent u db) c.sent
        × HasSize (ids_of FriendshipCountType.count_blocked u db) c.blocked
        × HasSize
            (ids_of FriendshipCountType.count_not_friends u db)
            (c.accepted + c.pending + c.sent + c.blocked)
  counts-HasSize u v =
      let rows = db.tables.rows in
      let users = db.tables.users in
      (
        relations_of u rows,
        count_calm u,
        ids-HasSize u FriendshipCountType.count_accepted is_accepted _ refl refl,
        ids-HasSize u FriendshipCountType.count_pending (is_incoming u) _ refl
            (same_incoming users u rows),
        ids-HasSize u FriendshipCountType.count_sent (is_sent u) _ refl (same_sent users u rows),
        ids-HasSize u FriendshipCountType.count_blocked is_blocked _ refl refl,
        ids-HasSize u FriendshipCountType.count_not_friends (λ _. true) _ refl
            (relations_total users u rows v.constrained),
      )

  -- On a table that meets its constraints, while the database answers, for two different users: each
  -- is in the other's list of friends or neither is, and one of them is among the other's incoming
  -- requests exactly where the other is among the requests that this one has sent.
  lists-Mirror :
      (a b : ℕ)
      → a ≢ b
      → IsValid db.tables
      → Mirror a b
          (ids_of FriendshipCountType.count_accepted a db)
          (ids_of FriendshipCountType.count_accepted b db)
        × Mirror a b
            (ids_of FriendshipCountType.count_pending a db)
            (ids_of FriendshipCountType.count_sent b db)
  lists-Mirror a b other v =
      let rows = db.tables.rows in
      let users = db.tables.users in
      (
        (
          _,
          _,
          ids_calm a FriendshipCountType.count_accepted is_accepted refl,
          ids_calm b FriendshipCountType.count_accepted is_accepted refl,
          any-friend users a b other rows v.constrained,
        ),
        (
          _,
          _,
          ids_calm a FriendshipCountType.count_pending (is_incoming a) refl,
          ids_calm b FriendshipCountType.count_sent (is_sent b) refl,
          any-mirror users a b other rows v.constrained,
        ),
      )
