-- ===== src/Friend/Constraints.antt =====
-- The constraints of friend_relationships as an invariant of the tables: every row meets its CHECKs
-- and foreign keys, and no two rows have one key.
use slps_team.Prelude.{
  ℕ, ◌≡◌, refl, arith, true, false, not, ◌&&◌, ◌||◌, ◌==◌, List, [], ◌∷◌, map, keep, all, any, some,
}
use slps_team.Friend.{FriendshipStatus, Row, Tables, satisfies_constraints}
use slps_team.Friend.Table.{
  has_key, new_row, assign, assign_at, upsert, insert_or_update, update_rows, delete_rows,
}

-- The primary key.
abbrev pub HasUniqueKeys : List Row → Type 0
HasUniqueKeys [] = Unit {0}
HasUniqueKeys (r ∷ rs) =
    (any (has_key r.first_user_id r.second_user_id) rs ≡ false) × HasUniqueKeys rs

pub record IsValid (t : Tables) : Type 0 where
  pub constrained : all (satisfies_constraints t.users) t.rows ≡ true
  pub unique : HasUniqueKeys t.rows

module _ (f s action : ℕ) (st : FriendshipStatus) (now : ℕ) where
  satisfies-assign :
      (users : List ℕ) (r : Row)
      → has_key f s r ≡ true
      → satisfies_constraints users (new_row f s action st now) ≡ true
      → satisfies_constraints users (assign action st now r) ≡ true
  unfolding satisfies_constraints
  satisfies-assign users r k h = ground arith

  all-upsert :
      (users : List ℕ) (rows : List Row)
      → satisfies_constraints users (new_row f s action st now) ≡ true
      → all (satisfies_constraints users) rows ≡ true
      → all (satisfies_constraints users) (upsert f s action st now rows) ≡ true
  all-upsert users [] ok_row h = rw ok_row
  all-upsert users (r ∷ rs) ok_row h = ground (arith, satisfies-assign users r, all-upsert users rs)

  any-upsert :
      (f' s' : ℕ) (rows : List Row)
      → any (has_key f' s') (upsert f s action st now rows)
        ≡ (f == f' && s == s' || any (has_key f' s') rows)
  any-upsert f' s' [] = ground arith
  any-upsert f' s' (r ∷ rs) = ground (arith, any-upsert f' s' rs)

  upsert_unique :
      (rows : List Row) → HasUniqueKeys rows → HasUniqueKeys (upsert f s action st now rows)
  upsert_unique [] h = (refl, tt)
  upsert_unique (r ∷ rs) h =
      ground (arith, any-upsert r.first_user_id r.second_user_id rs, upsert_unique rs)

  -- An upsert keeps the invariant.
  pub insert_or_update-IsValid :
      (t : Tables) {n : ℕ} {t' : Tables}
      → IsValid t
      → insert_or_update f s action st now t ≡ some (n, t')
      → IsValid t'
  unfolding insert_or_update
  insert_or_update-IsValid t v e = ground (arith, all-upsert t.users t.rows, upsert_unique t.rows)

  any-assign :
      (f' s' : ℕ) (rows : List Row)
      → any (has_key f' s') (map (assign_at f s action st now) rows) ≡ any (has_key f' s') rows
  any-assign f' s' [] = refl
  any-assign f' s' (r ∷ rs) = ground (arith, any-assign f' s' rs)

  assign_unique :
      (rows : List Row)
      → HasUniqueKeys rows
      → HasUniqueKeys (map (assign_at f s action st now) rows)
  assign_unique [] h = tt
  assign_unique (r ∷ rs) h =
      ground (arith, any-assign r.first_user_id r.second_user_id rs, assign_unique rs)

  all-assign :
      (users : List ℕ) (rows : List Row)
      → all (λ r. not (has_key f s r) || satisfies_constraints users (assign action st now r)) rows
        ≡ true
      → all (satisfies_constraints users) rows ≡ true
      → all (satisfies_constraints users) (map (assign_at f s action st now) rows) ≡ true
  all-assign users [] h k = refl
  all-assign users (r ∷ rs) h k = ground (arith, all-assign users rs)

  pub update_rows-IsValid :
      (t : Tables) {n : ℕ} {t' : Tables}
      → IsValid t
      → update_rows f s action st now t ≡ some (n, t')
      → IsValid t'
  unfolding update_rows
  update_rows-IsValid t v e = ground (arith, all-assign t.users t.rows, assign_unique t.rows)

module _ (f s : ℕ) where
  any-delete :
      (f' s' : ℕ) (rows : List Row)
      → any (has_key f' s') rows ≡ false
      → any (has_key f' s') (keep (λ r. not (has_key f s r)) rows) ≡ false
  any-delete f' s' [] h = refl
  any-delete f' s' (r ∷ rs) h = ground (arith, any-delete f' s' rs)

  delete_unique :
      (rows : List Row) → HasUniqueKeys rows → HasUniqueKeys (keep (λ r. not (has_key f s r)) rows)
  delete_unique [] h = tt
  delete_unique (r ∷ rs) h =
      ground (arith, any-delete r.first_user_id r.second_user_id rs h.0, delete_unique rs h.1)

  all-delete :
      (users : List ℕ) (rows : List Row)
      → all (satisfies_constraints users) rows ≡ true
      → all (satisfies_constraints users) (keep (λ r. not (has_key f s r)) rows) ≡ true
  all-delete users [] h = refl
  all-delete users (r ∷ rs) h = ground (arith, all-delete users rs)

  pub delete_rows-IsValid :
      (now : ℕ) (t : Tables) {n : ℕ} {t' : Tables}
      → IsValid t
      → delete_rows f s now t ≡ some (n, t')
      → IsValid t'
  unfolding delete_rows
  delete_rows-IsValid now t v e = ground (arith, all-delete t.users t.rows, delete_unique t.rows)
