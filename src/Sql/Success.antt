-- ===== src/Sql/Success.antt =====
-- What each step has done, when a block of statements succeeds.
use slps_team.Prelude.{
  ℕ, String, ap, sym, subst, if◌then◌else◌, ◌∙◌, ◌≡◌, refl, Bool, true, false, Option, none, some,
  Option-cases, Bool-cases, inl, inr, arith,
}
use slps_team.Errors.{Error, Sentinel}
use slps_team.Flow.{
  Result, ok, err, Action, pure, raise, continue, handled, on_error, return_if, ◌>>=◌,
}
use slps_team.Flow.Keeps.{Keeps}
use slps_team.Sql.{Db, exec, query, wrap_error, wrapping, rolled_back, in_transaction, sql_steps}

module _ {S A B : Type 0} where
  continue_run :
      (f : A → Action S B) (x : Result A × S) (b : B) (t : S)
      → continue f x ≡ (ok b, t)
      → (a : A) × (s : S) × (x ≡ (ok a, s)) × (f a s ≡ (ok b, t))
  continue_run f (ok a, s) b t e = (a, s, refl, e)
  continue_run f (err d, s) b t e = absurd (cc)

  pub bind_ran :
      (m : Action S A) (f : A → Action S B) (s : S) (b : B) (t : S)
      → (m >>= f) s ≡ (ok b, t)
      → (a : A) × (s' : S) × (m s ≡ (ok a, s')) × (f a s' ≡ (ok b, t))
  bind_ran m f s b t e = continue_run f (m s) b t e

module _ {S A : Type 0} where
  handled_run :
      (handle : Error → Sentinel) (x : Result A × S) (a : A) (t : S)
      → handled handle x ≡ (ok a, t)
      → x ≡ (ok a, t)
  handled_run handle (ok b, s) a t e = e
  handled_run handle (err d, s) a t e = absurd (cc)

  pub on_error_ran :
      (handle : Error → Sentinel) (m : Action S A) (s : S) (a : A) (t : S)
      → on_error handle m s ≡ (ok a, t)
      → m s ≡ (ok a, t)
  on_error_ran handle m s a t e = handled_run handle (m s) a t e

  wrapping_run :
      (text : String) (x : Result A × S) (a : A) (t : S)
      → wrapping text x ≡ (ok a, t)
      → x ≡ (ok a, t)
  wrapping_run text (ok b, s) a t e = e
  wrapping_run text (err d, s) a t e = absurd (cc)

  pub wrap_error_ran :
      (text : String) (m : Action S A) (s : S) (a : A) (t : S)
      → wrap_error text m s ≡ (ok a, t)
      → m s ≡ (ok a, t)
  wrap_error_ran text m s a t e = wrapping_run text (m s) a t e

pub return_if_ran :
    {S : Type 0} (b : Bool) (d : Sentinel) (s : S) (u : Unit {0}) (t : S)
    → return_if b d s ≡ (ok u, t)
    → (b ≡ false) × (s ≡ t)
return_if_ran true d s u t e = absurd (cc)
return_if_ran false d s u t e = (refl, ap (λ x. x.1) e)

module _ {T A : Type 0} where
  abbrev answer : Result A × Db T → Option (A × T)
  answer (ok a, db) = some (a, db.tables)
  answer (err e, db) = none

  pub exec_ran :
      (statement : ℕ → T → Option (A × T)) (db : Db T) (a : A) (db' : Db T)
      → exec statement db ≡ (ok a, db')
      → statement (db.env.time db.statements) db.tables ≡ some (a, db'.tables)
  exec_ran statement db a db' e = elim (Bool-cases (db.env.fails db.statements)) [
    | inl down ↦ let failed = simp (down) at e in absurd (cc)
    | inr up ↦ elim (Option-cases (statement (db.env.time db.statements) db.tables)) [
      | inl bad ↦ let failed = simp (up, bad, sql_steps) at e in absurd (cc)
      | inr ((n, t), good) ↦ let done = simp (up, good, sql_steps) at e in good ∙ ap answer done
    ]
  ]

  pub query_ran :
      (statement : T → Option A) (db : Db T) (a : A) (db' : Db T)
      → query statement db ≡ (ok a, db')
      → (statement db.tables ≡ some a) × (db.tables ≡ db'.tables)
  query_ran statement db a db' e = elim (Bool-cases (db.env.fails db.statements)) [
    | inl down ↦ let failed = simp (down) at e in absurd (cc)
    | inr up ↦ elim (Option-cases (statement db.tables)) [
      | inl bad ↦ let failed = simp (up, bad, sql_steps) at e in absurd (cc)
      | inr (b, good) ↦
          let done = simp (up, good, sql_steps) at e in
          let both : some (b, db.tables) ≡ some (a, db'.tables) = ap answer done in
          (good ∙ ground (arith, both), ground (arith, both))
    ]
  ]

  module _ (undone : T → T → T) where
    rolled_back_run :
        (before : T) (x : Result A × Db T) (a : A) (db' : Db T)
        → rolled_back undone before x ≡ (ok a, db')
        → x ≡ (ok a, db')
    rolled_back_run before (ok b, db) a db' e = e
    rolled_back_run before (err d, db) a db' e = absurd (cc)

    pub in_transaction_ran :
        (m : Action (Db T) A) (db : Db T) (a : A) (db' : Db T)
        → in_transaction undone m db ≡ (ok a, db')
        → m db ≡ (ok a, db')
    in_transaction_ran m db a db' e = rolled_back_run db.tables (m db) a db' e

    rolled_back_failed :
        (before : T) (x : Result A × Db T) (d : Error) (db' : Db T)
        → rolled_back undone before x ≡ (err d, db')
        → db'.tables ≡ undone before x.1.tables
    rolled_back_failed before (ok b, db) d db' e = absurd (cc)
    rolled_back_failed before (err c, db) d db' e = sym (ap (λ (y : Result A × Db T). y.1.tables) e)

    -- A transaction that fails has changed nothing but what no rollback reaches.
    pub in_transaction_failed :
        (m : Action (Db T) A) (db : Db T) (d : Error) (db' : Db T)
        → in_transaction undone m db ≡ (err d, db')
        → db'.tables ≡ undone db.tables (m db).1.tables
    in_transaction_failed m db d db' e = rolled_back_failed db.tables (m db) d db' e

-- What holds of the result and the state after an action, if it succeeds.
pub record Ensures {S A : Type 0} (m : Action S A) (s : S) (Q : A → S → Type 0) : Type 0 where
  pub at : (a : A) (t : S) → m s ≡ (ok a, t) → Q a t

pub pure_run : {S A : Type 0} (a b : A) (s t : S) → pure a s ≡ (ok b, t) → (a ≡ b) × (s ≡ t)
pure_run a b s t e = (ground (arith, e), ground (arith, e))

module _ {S A : Type 0} where
  pub Ensures-bind :
      {B : Type 0} (m : Action S A) (f : A → Action S B) (s : S) {Q : A → S → Type 0}
      {R : B → S → Type 0}
      → Ensures m s Q
      → ((a : A) (t : S) → Q a t → Ensures (f a) t R)
      → Ensures (m >>= f) s R
  Ensures-bind m f s h k = record {
    at = λ b u e.
        let (a, t, first, rest) = bind_ran m f s b u e in (k a t (h.at a t first)).at b u rest;
  }

  module _ (s : S) {Q : A → S → Type 0} where
    pub Ensures-wrap_error :
        (text : String) (m : Action S A) → Ensures m s Q → Ensures (wrap_error text m) s Q
    Ensures-wrap_error text m h = record { at = λ a t e. h.at a t (wrap_error_ran text m s a t e) }

    pub Ensures-on_error :
        (handle : Error → Sentinel) (m : Action S A)
        → Ensures m s Q
        → Ensures (on_error handle m) s Q
    Ensures-on_error handle m h = record { at = λ a t e. h.at a t (on_error_ran handle m s a t e) }

    pub Ensures-raise : (d : Error) → Ensures (raise d) s Q
    Ensures-raise d = record { at = λ a t e. absurd (cc) }

    pub Ensures-if :
        (b : Bool) (m n : Action S A)
        → (b ≡ true → Ensures m s Q)
        → (b ≡ false → Ensures n s Q)
        → Ensures (if b then m else n) s Q
    Ensures-if true m n h k = h refl
    Ensures-if false m n h k = k refl

    pub Ensures-pure : (a : A) → Q a s → Ensures (pure a) s Q
    Ensures-pure a h = record {
      at = λ b t e.
          let (same, still) = pure_run a b s t e in
          subst (λ x. Q x t) same (subst (λ y. Q a y) still h);
    }

pub Ensures-return_if :
    {S : Type 0} (b : Bool) (d : Sentinel) (s : S)
    → Ensures (return_if b d) s (λ _ t. (b ≡ false) × (s ≡ t))
Ensures-return_if b d s = record { at = λ u t e. return_if_ran b d s u t e }

module _ {T A : Type 0} (db : Db T) where
  pub Ensures-exec :
      (statement : ℕ → T → Option (A × T))
      → Ensures
          (exec statement)
          db
          (λ a db'. statement (db.env.time db.statements) db.tables ≡ some (a, db'.tables))
  Ensures-exec statement = record { at = λ a db' e. exec_ran statement db a db' e }

  pub Ensures-query :
      (statement : T → Option A)
      → Ensures
          (query statement)
          db
          (λ a db'. (statement db.tables ≡ some a) × (db.tables ≡ db'.tables))
  Ensures-query statement = record { at = λ a db' e. query_ran statement db a db' e }

  pub Ensures-in_transaction :
      (undone : T → T → T) (m : Action (Db T) A) {Q : A → Db T → Type 0}
      → Ensures m db Q
      → Ensures (in_transaction undone m) db Q
  Ensures-in_transaction undone m h = record {
    at = λ a db' e. h.at a db' (in_transaction_ran undone m db a db' e);
  }

-- What holds of the state after an action, if it fails.
pub record Fails {S A : Type 0} (m : Action S A) (s : S) (R : S → Type 0) : Type 0 where
  pub at : (e : Error) (t : S) → m s ≡ (err e, t) → R t

abbrev left : {S A : Type 0} → Result A × S → S
left x = x.1

module _ {S : Type 0} {P : S → Type 0} where
  module _ {A : Type 0} where
    pub Fails-kept : (m : Action S A) (s : S) → Keeps P m → P s → Fails m s P
    Fails-kept m s k h = record { at = λ e t f. subst P (ap left f) (k.at s h) }

    pub Ensures-kept : (m : Action S A) (s : S) → Keeps P m → P s → Ensures m s (λ _ t. P t)
    Ensures-kept m s k h = record { at = λ a t f. subst P (ap left f) (k.at s h) }

  module _ {A B : Type 0} (f : A → Action S B) where
    Fails-continue :
        (x : Result A × S)
        → P x.1
        → ((a : A) (t : S) → P t → Fails (f a) t P)
        → (e : Error) (u : S) → continue f x ≡ (err e, u)
        → P u
    Fails-continue (ok a, t) h k e u q = (k a t h).at e u q
    Fails-continue (err d, t) h k e u q = subst P (ap left q) h

  -- A step that keeps the predicate, before one that keeps it when it fails.
  pub Fails-after :
      {A B : Type 0} (m : Action S A) (f : A → Action S B) (s : S)
      → Keeps P m
      → P s
      → ((a : A) (t : S) → P t → Fails (f a) t P)
      → Fails (m >>= f) s P
  Fails-after m f s kept h k = record { at = λ e u q. Fails-continue f (m s) (kept.at s h) k e u q }

pub Fails-in_transaction :
    {T A : Type 0} (undone : T → T → T) (m : Action (Db T) A) (db : Db T)
    → Fails (in_transaction undone m) db (λ db'. (t : T) × (db'.tables ≡ undone db.tables t))
Fails-in_transaction undone m db = record {
  at = λ e db' q. ((m db).1.tables, in_transaction_failed undone m db e db' q);
}
