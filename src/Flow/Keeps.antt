-- ===== src/Flow/Keeps.antt =====
-- Predicates of the state that an action keeps, whether it fails or not: one rule for each way to
-- build an action.
use slps_team.Prelude.{Bool, true, false, if◌then◌else◌}
use slps_team.Errors.{Error, Sentinel}
use slps_team.Flow.{
  Result, ok, err, Action, pure, raise, on_error, or_return, handled, continue, return_if, lift,
  ◌>>=◌,
}

pub record Keeps {S A : Type 0} (P : S → Type 0) (m : Action S A) : Type 0 where
  pub at : (s : S) → P s → P (m s).1

module _ {S : Type 0} (P : S → Type 0) where
  handled-state :
      {A : Type 0} (handle : Error → Sentinel) (x : Result A × S) → P x.1 → P (handled handle x).1
  handled-state handle (ok a, t) h = h
  handled-state handle (err e, t) h = h

  continue-state :
      {A B : Type 0} (f : A → Action S B) (x : Result A × S)
      → ((a : A) → Keeps P (f a))
      → P x.1
      → P (continue f x).1
  continue-state f (ok a, t) kf h = (kf a).at t h
  continue-state f (err e, t) kf h = h

module _ {S : Type 0} {P : S → Type 0} where
  module _ {A : Type 0} where
    pub Keeps-pure : (a : A) → Keeps P (pure a)
    Keeps-pure a = record { at = λ s h. h }

    pub Keeps-raise : (e : Error) → Keeps P (raise {A = A} e)
    Keeps-raise e = record { at = λ s h. h }

    pub Keeps-lift : (r : Result A) → Keeps P (lift r)
    Keeps-lift r = record { at = λ s h. h }

    pub Keeps-on_error :
        (handle : Error → Sentinel) (m : Action S A) → Keeps P m → Keeps P (on_error handle m)
    Keeps-on_error handle m k = record { at = λ s h. handled-state P handle (m s) (k.at s h) }

    pub Keeps-or_return : (t : Sentinel) (m : Action S A) → Keeps P m → Keeps P (or_return t m)
    Keeps-or_return t m k = Keeps-on_error (λ _. t) m k

    pub Keeps-if :
        (b : Bool) (m n : Action S A) → Keeps P m → Keeps P n → Keeps P (if b then m else n)
    Keeps-if true m n km kn = km
    Keeps-if false m n km kn = kn

  pub Keeps-bind :
      {A B : Type 0} (m : Action S A) (f : A → Action S B)
      → Keeps P m
      → ((a : A) → Keeps P (f a))
      → Keeps P (m >>= f)
  Keeps-bind m f k kf = record { at = λ s h. continue-state P f (m s) kf (k.at s h) }

  pub Keeps-return_if : (b : Bool) (t : Sentinel) → Keeps P (return_if b t)
  Keeps-return_if true t = record { at = λ s h. h }
  Keeps-return_if false t = record { at = λ s h. h }
