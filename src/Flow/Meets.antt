-- ===== src/Flow/Meets.antt =====
-- What holds after an action that started where a condition holds: one thing if it succeeds, another
-- if it fails. There is one rule for each way to build an action.
use slps_team.Prelude.{Bool, true, false, ◌≡◌, refl, if◌then◌else◌}
use slps_team.Errors.{Error, Sentinel}
use slps_team.Flow.{
  Result, ok, err, Action, pure, raise, on_error, or_return, handled, continue, return_if, ◌>>=◌,
}
use slps_team.Flow.Keeps.{Keeps}

abbrev pub Lands : {S A : Type 0} → (A → S → Type 0) → (S → Type 0) → Result A × S → Type 0
Lands Q E (ok a, t) = Q a t
Lands Q E (err e, t) = E t

pub record Meets {S A : Type 0} (P : S → Type 0) (m : Action S A) (Q : A → S → Type 0)
    (E : S → Type 0) : Type 0 where
  pub at : (s : S) → P s → Lands Q E (m s)

module _ {S A B : Type 0} (Q : A → S → Type 0) (R : B → S → Type 0) (E : S → Type 0) where
  continue-Lands :
      (f : A → Action S B) (x : Result A × S)
      → ((a : A) → Meets (Q a) (f a) R E)
      → Lands Q E x
      → Lands R E (continue f x)
  continue-Lands f (ok a, t) k h = (k a).at t h
  continue-Lands f (err e, t) k h = h

module _ {S A : Type 0} (Q : A → S → Type 0) (E : S → Type 0) where
  handled-Lands :
      (handle : Error → Sentinel) (x : Result A × S) → Lands Q E x → Lands Q E (handled handle x)
  handled-Lands handle (ok a, t) h = h
  handled-Lands handle (err e, t) h = h

  state_after : (P : S → Type 0) (x : Result A × S) → Lands (λ _ t. P t) P x → P x.1
  state_after P (ok a, t) h = h
  state_after P (err e, t) h = h

module _ {S : Type 0} {P E : S → Type 0} where
  pub Meets-bind :
      {A B : Type 0} (m : Action S A) (f : A → Action S B) {Q : A → S → Type 0} {R : B → S → Type 0}
      → Meets P m Q E
      → ((a : A) → Meets (Q a) (f a) R E)
      → Meets P (m >>= f) R E
  Meets-bind m f {Q} {R} h k = record { at = λ s p. continue-Lands Q R E f (m s) k (h.at s p) }

  module _ {A : Type 0} {Q : A → S → Type 0} where
    pub Meets-pure : (a : A) → ((s : S) → P s → Q a s) → Meets P (pure a) Q E
    Meets-pure a h = record { at = h }

    pub Meets-raise : (e : Error) → ((s : S) → P s → E s) → Meets P (raise {A = A} e) Q E
    Meets-raise e h = record { at = h }

    pub Meets-on_error :
        (handle : Error → Sentinel) (m : Action S A)
        → Meets P m Q E
        → Meets P (on_error handle m) Q E
    Meets-on_error handle m h = record { at = λ s p. handled-Lands Q E handle (m s) (h.at s p) }

    pub Meets-or_return :
        (t : Sentinel) (m : Action S A) → Meets P m Q E → Meets P (or_return t m) Q E
    Meets-or_return t m h = Meets-on_error (λ _. t) m h

    pub Meets-if :
        (b : Bool) (m n : Action S A)
        → Meets P m Q E
        → Meets P n Q E
        → Meets P (if b then m else n) Q E
    Meets-if true m n h k = h
    Meets-if false m n h k = k

    -- A weaker condition before, and stronger ones after.
    pub Meets-weaken :
        {P' E' : S → Type 0} {Q' : A → S → Type 0} (m : Action S A)
        → ((s : S) → P s → P' s)
        → ((a : A) (s : S) → Q' a s → Q a s)
        → ((s : S) → E' s → E s)
        → Meets P' m Q' E'
        → Meets P m Q E
    Meets-weaken {P'} {E'} {Q'} m p q e h = record { at = λ s x. moved (m s) (h.at s (p s x)) }
      where
        moved : (x : Result A × S) → Lands Q' E' x → Lands Q E x
        moved (ok a, t) y = q a t y
        moved (err d, t) y = e t y

  pub Meets-return_if :
      (b : Bool) (t : Sentinel)
      → ((s : S) → P s → E s)
      → Meets P (return_if b t) (λ _ s. P s × (b ≡ false)) E
  Meets-return_if true t h = record { at = h }
  Meets-return_if false t h = record { at = λ s p. (p, refl) }

module _ {S A : Type 0} {P : S → Type 0} where
  pub Meets-Keeps : (m : Action S A) → Keeps P m → Meets P m (λ _ s. P s) P
  Meets-Keeps m k = record { at = λ s p. landed (m s) (k.at s p) }
    where
      landed : (x : Result A × S) → P x.1 → Lands (λ _ s. P s) P x
      landed (ok a, t) h = h
      landed (err e, t) h = h

  pub Keeps-Meets : (m : Action S A) → Meets P m (λ _ s. P s) P → Keeps P m
  Keeps-Meets m h = record { at = λ s p. state_after (λ _ s. P s) P P (m s) (h.at s p) }

-- Together with what is kept anyway.
pub Meets-and :
    {S A : Type 0} {P E K : S → Type 0} {Q : A → S → Type 0} (m : Action S A)
    → Meets P m Q E
    → Keeps K m
    → Meets (λ s. P s × K s) m (λ a s. Q a s × K s) E
Meets-and {S} {A} {P} {E} {K} {Q} m h k = record {
  at = λ s (p, x). both (m s) (h.at s p) (k.at s x);
}
  where
    both : (y : Result A × S) → Lands Q E y → K y.1 → Lands (λ a s. Q a s × K s) E y
    both (ok a, t) q x = (q, x)
    both (err e, t) q x = q
