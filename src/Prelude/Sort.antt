-- ===== src/Prelude/Sort.antt =====
-- Insertion sort by a Boolean order, as the reading of ORDER BY.
use Prim.Native.Nat.{suc}
use mathlib.Core.Path.{◌≡◌, refl, ap, ◌∙◌}
use mathlib.Core.Bool.{Bool, true, false, ◌||◌, ◌&&◌}
use mathlib.Core.Logic.{inl, inr}
use mathlib.Core.List.{List, [], ◌∷◌, Perm}
use mathlib.Core.List.Perm
use native.Mathlib.Omega.{arith}
use slps_team.Prelude.Tests.{if◌then◌else◌, Bool-cases}
use slps_team.Prelude.Lists.{length, any, all, tally}

module _ {ℓ} {A : Type ℓ} (before : A → A → Bool) where
  -- Puts an element in front of the first that may not stand before it.
  pub insert : A → List A → List A
  insert x [] = x ∷ []
  insert x (y ∷ ys) = if before x y then x ∷ y ∷ ys else y ∷ insert x ys

  unfoldable pub sort : List A → List A
  unfolding insert
  sort [] = []
  sort (x ∷ xs) = insert x (sort xs)

  insert-perm : (x : A) (xs : List A) → Perm (insert x xs) (x ∷ xs)
  unfolding insert
  insert-perm x [] = Perm.refl (x ∷ [])
  insert-perm x (y ∷ ys) = elim (Bool-cases (before x y)) [
    | inl e ↦ rw e (Perm.refl (x ∷ y ∷ ys))
    | inr e ↦ rw e (Perm.trans (Perm.cons y (insert-perm x ys)) (Perm.swap x y ys))
  ]

  -- Sorting only reorders.
  pub sort-perm : (xs : List A) → Perm (sort xs) xs
  unfolding sort
  sort-perm [] = Perm.refl []
  sort-perm (x ∷ xs) = Perm.trans (insert-perm x (sort xs)) (Perm.cons x (sort-perm xs))

  length-insert : (x : A) (xs : List A) → length (insert x xs) ≡ length (x ∷ xs)
  unfolding insert
  length-insert x [] = refl
  length-insert x (y ∷ ys) = ground (arith, length-insert x ys)

  pub length-sort : (xs : List A) → length (sort xs) ≡ length xs
  unfolding sort
  length-sort [] = refl
  length-sort (x ∷ xs) = length-insert x (sort xs) ∙ ap suc (length-sort xs)

  any-insert : (p : A → Bool) (x : A) (xs : List A) → any p (insert x xs) ≡ any p (x ∷ xs)
  unfolding insert
  any-insert p x [] = refl
  any-insert p x (y ∷ ys) = ground (arith, any-insert p x ys)

  pub any-sort : (p : A → Bool) (xs : List A) → any p (sort xs) ≡ any p xs
  unfolding sort
  any-sort p [] = refl
  any-sort p (x ∷ xs) = any-insert p x (sort xs) ∙ ap (λ b. p x || b) (any-sort p xs)

-- Sorting keeps how many elements a test is true of.
module _ {ℓ} {A : Type ℓ} (before : A → A → Bool) (p : A → Bool) where
  tally-insert : (x : A) (xs : List A) → tally p (insert before x xs) ≡ tally p (x ∷ xs)
  unfolding insert
  tally-insert x [] = refl
  tally-insert x (y ∷ ys) = ground (arith, tally-insert x ys)

  pub tally-sort : (xs : List A) → tally p (sort before xs) ≡ tally p xs
  unfolding sort
  tally-sort [] = refl
  tally-sort (x ∷ xs) = ground (arith, tally-insert x (sort before xs), tally-sort xs)

-- Sorting by a transitive and total order puts each element before all that follow it.
module _ {ℓ} {A : Type ℓ} (before : A → A → Bool) where
  abbrev pub in_order : List A → Bool
  in_order [] = true
  in_order (x ∷ xs) = all (before x) xs && in_order xs

module _ {ℓ} {A : Type ℓ} (before : A → A → Bool)
    (trans : (x y z : A) → before x y ≡ true → before y z ≡ true → before x z ≡ true)
    (total : (x y : A) → before x y ≡ false → before y x ≡ true) where
  before-all :
      (x y : A) (zs : List A)
      → before x y ≡ true
      → all (before y) zs ≡ true
      → all (before x) zs ≡ true
  before-all x y [] e f = refl
  before-all x y (z ∷ zs) e f = ground (arith, e, f, trans x y z, before-all x y zs)

  all-insert :
      (x y : A) (zs : List A)
      → before x y ≡ true
      → all (before x) zs ≡ true
      → all (before x) (insert before y zs) ≡ true
  unfolding insert
  all-insert x y [] e f = ground (arith, e)
  all-insert x y (z ∷ zs) e f = ground (arith, e, f, all-insert x y zs)

  in_order-insert :
      (y : A) (zs : List A)
      → in_order before zs ≡ true
      → in_order before (insert before y zs) ≡ true
  unfolding insert
  in_order-insert y [] e = refl
  in_order-insert y (z ∷ zs) e = elim (Bool-cases (before y z)) [
    | inl first ↦ ground (arith, e, first, before-all y z zs first)
    | inr after ↦
        ground (arith, e, after, all-insert z y zs (total y z after), in_order-insert y zs)
  ]

  pub in_order-sort : (xs : List A) → in_order before (sort before xs) ≡ true
  unfolding sort
  in_order-sort [] = refl
  in_order-sort (x ∷ xs) = in_order-insert x (sort before xs) (in_order-sort xs)
