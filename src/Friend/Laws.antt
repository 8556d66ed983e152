-- ===== src/Friend/Laws.antt =====
-- What the statements of Friend/Table do to the standing of a pair: its status, and who set it.
use slps_team.Prelude.{
  ℕ, ◌≡◌, refl, arith, Bool, true, false, not, ◌&&◌, ◌==◌, List, [], ◌∷◌, map, keep, tally, Option,
  none, some, if◌then◌else◌,
}
use slps_team.Friend.{FriendshipStatus, Row}
use slps_team.Friend.Table.{has_key, select_row, assign_at, upsert}

abbrev pub Standing : Type 0
Standing = Option (FriendshipStatus × ℕ)

abbrev pub standing_at : ℕ → ℕ → List Row → Standing
standing_at f s [] = none
standing_at f s (r ∷ rs) =
    if has_key f s r then some (r.status, r.action_user_id) else standing_at f s rs

abbrev pub same_key : ℕ → ℕ → ℕ → ℕ → Bool
same_key f s f' s' = f == f' && s == s'

-- The row that a query finds shows the standing.
abbrev pub standing_of : Option Row → Standing
standing_of none = none
standing_of (some r) = some (r.status, r.action_user_id)

pub standing-select :
    (f s : ℕ) (rows : List Row) → standing_of (select_row f s rows) ≡ standing_at f s rows
standing-select f s [] = refl
standing-select f s (r ∷ rs) = ground (arith, standing-select f s rs)

module _ (f s action : ℕ) (st : FriendshipStatus) (now : ℕ) (f' s' : ℕ) where
  pub standing-upsert :
      (rows : List Row)
      → standing_at f' s' (upsert f s action st now rows)
        ≡ (if same_key f s f' s' then some (st, action) else standing_at f' s' rows)
  standing-upsert [] = ground arith
  standing-upsert (r ∷ rs) = ground (arith, standing-upsert rs)

  -- An UPDATE changes the standing of a pair that has one.
  pub standing-assign :
      (rows : List Row)
      → standing_at f' s' (map (assign_at f s action st now) rows) ≡ (
          if same_key f s f' s'
          then elim (standing_at f' s' rows) [ none ↦ none | some _ ↦ some (st, action) ]
          else standing_at f' s' rows)
  standing-assign [] = ground arith
  standing-assign (r ∷ rs) = ground (arith, standing-assign rs)

module _ (f s f' s' : ℕ) where
  pub standing-delete :
      (rows : List Row)
      → standing_at f' s' (keep (λ r. not (has_key f s r)) rows)
        ≡ (if same_key f s f' s' then none else standing_at f' s' rows)
  standing-delete [] = ground arith
  standing-delete (r ∷ rs) = ground (arith, standing-delete rs)

abbrev pub is_none {ℓ} : {A : Type ℓ} → Option A → Bool
is_none none = true
is_none (some _) = false

-- No row is affected exactly where the pair has no standing.
pub tally-standing :
    (f s : ℕ) (rows : List Row) → (tally (has_key f s) rows == 0) ≡ is_none (standing_at f s rows)
tally-standing f s [] = refl
tally-standing f s (r ∷ rs) = ground (arith, tally-standing f s rs)

-- A DELETE that finds no row leaves the table.
pub delete_nothing :
    (f s : ℕ) (rows : List Row)
    → standing_at f s rows ≡ none
    → keep (λ r. not (has_key f s r)) rows ≡ rows
delete_nothing f s [] h = refl
delete_nothing f s (r ∷ rs) h = ground (arith, delete_nothing f s rs)
