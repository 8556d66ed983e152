-- ===== src/Flow.antt =====
-- Go functions that return a value and an error, over a state that they read and change. What is
-- written before an error stays written.
pub mod Keeps
pub mod Meets
use slps_team.Prelude.{arith, ◌≡◌, refl, Bool, true, false}
use slps_team.Errors.{Error, Sentinel, sentinel}

pub data Result {ℓ} (A : Type ℓ) : Type ℓ where
  ok : A → Result A
  err : Error → Result A

abbrev pub Action : Type 0 → Type 0 → Type 0
Action S A = S → Result A × S

module _ {S A : Type 0} where
  abbrev pub pure : A → Action S A
  pure a s = (ok a, s)

  abbrev pub raise : Error → Action S A
  raise e s = (err e, s)

  -- `return …, domain.Err…`
  abbrev pub fail : Sentinel → Action S A
  fail t = raise (sentinel t)

  -- A call of another service, which does not touch the state.
  abbrev pub lift : Result A → Action S A
  lift r s = (r, s)

  abbrev pub handled : (Error → Sentinel) → Result A × S → Result A × S
  handled handle (ok a, s) = (ok a, s)
  handled handle (err e, s) = (err (sentinel (handle e)), s)

  -- `if err != nil { … }` around one call: the error becomes what the handler makes of it.
  abbrev pub on_error : (Error → Sentinel) → Action S A → Action S A
  on_error handle m s = handled handle (m s)

  -- `if err != nil { return …, domain.Err… }`
  abbrev pub or_return : Sentinel → Action S A → Action S A
  or_return t m = on_error (λ _. t) m

abbrev pub continue : {S A B : Type 0} → (A → Action S B) → Result A × S → Result B × S
continue f (ok a, s) = f a s
continue f (err e, s) = (err e, s)

infixl 5 ◌>>=◌ ◌>>◌
abbrev pub ◌>>=◌ : {S A B : Type 0} → Action S A → (A → Action S B) → Action S B
◌>>=◌ m f s = continue f (m s)

abbrev pub ◌>>◌ : {S B : Type 0} → Action S (Unit {0}) → Action S B → Action S B
m >> k = m >>= λ _. k

-- `if test { return domain.Err… }`
abbrev pub return_if : {S : Type 0} → Bool → Sentinel → Action S (Unit {0})
return_if true t = fail t
return_if false t = pure tt

-- A call whose error is dropped.
abbrev pub ignoring : {S A : Type 0} → Action S A → S → S
ignoring m s = (m s).1

-- To run a block: `simp` opens what waits on a rewritten part.
pub ruleset flow_steps = (◌>>=◌, continue, on_error, handled)

pub same_ok : {A : Type 0} (x y : A) → ok x ≡ ok y → x ≡ y
same_ok x y e = ground arith

-- A block that gives a value has given one at each call.
module _ {S A B : Type 0} where
  pub continue_ok :
      (f : A → Action S B) (x : Result A × S) (b : B)
      → (continue f x).0 ≡ ok b
      → (a : A) × (x.0 ≡ ok a) × ((f a x.1).0 ≡ ok b)
  continue_ok f (ok a, s) b e = (a, refl, e)
  continue_ok f (err d, s) b e = absurd (cc)

pub handled_ok :
    {S A : Type 0} (handle : Error → Sentinel) (x : Result A × S) (a : A)
    → (handled handle x).0 ≡ ok a
    → x.0 ≡ ok a
handled_ok handle (ok b, s) a e = e
handled_ok handle (err d, s) a e = absurd (cc)

pub return_if_then :
    {S A : Type 0} (b : Bool) (t : Sentinel) (a a' : A) (s : S)
    → ((return_if b t >> pure a) s).0 ≡ ok a'
    → (b ≡ false) × (a ≡ a')
return_if_then true t a a' s e = absurd (cc)
return_if_then false t a a' s e = (refl, same_ok a a' e)
