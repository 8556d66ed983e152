-- ===== src/Sql/Meets.antt =====
-- The rules of Flow/Meets for statements and transactions: conditions on the tables.
use slps_team.Prelude.{
  ℕ, String, subst, ◌≡◌, refl, Option, some, Option-cases, Bool-cases, inl, inr,
}
use slps_team.Flow.{Result, ok, err, Action}
use slps_team.Flow.Meets.{Lands, Meets}
use slps_team.Sql.{
  Db, exec, query, result_of, wrap_error, wrapping, begin, commit_tx, rolled_back, in_transaction,
  sql_steps,
}

-- The conditions of a triple, on the tables.
abbrev pub Takes :
    {T A : Type 0} → (T → Type 0) → Action (Db T) A → (A → T → Type 0) → (T → Type 0) → Type 0
Takes P m Q E = Meets (λ db. P db.tables) m (λ a db. Q a db.tables) (λ db. E db.tables)

module _ {T A : Type 0} (P : T → Type 0) (Q : A → T → Type 0) (E : T → Type 0) where
  wrapping-Lands :
      (text : String) (x : Result A × Db T)
      → Lands (λ a db. Q a db.tables) (λ db. E db.tables) x
      → Lands (λ a db. Q a db.tables) (λ db. E db.tables) (wrapping text x)
  wrapping-Lands text (ok a, t) h = h
  wrapping-Lands text (err e, t) h = h

  pub Takes-wrap_error :
      (text : String) (m : Action (Db T) A) → Takes P m Q E → Takes P (wrap_error text m) Q E
  Takes-wrap_error text m k = record { at = λ db h. wrapping-Lands text (m db) (k.at db h) }

  pub Takes-exec :
      (statement : ℕ → T → Option (A × T))
      → ((t : T) → P t → E t)
      → ((now : ℕ) (t : T) (a : A) (t' : T) → P t → statement now t ≡ some (a, t') → Q a t')
      → Takes P (exec statement) Q E
  Takes-exec statement stays moves = record {
    at = λ db h. elim (Bool-cases (db.env.fails db.statements)) [
      | inl down ↦ simp (down, sql_steps) (stays db.tables h)
      | inr up ↦ elim (Option-cases (statement (db.env.time db.statements) db.tables)) [
        | inl bad ↦ simp (up, bad, sql_steps) (stays db.tables h)
        | inr ((a, t), good) ↦
            simp (up, good, sql_steps) (moves (db.env.time db.statements) db.tables a t h good)
      ]
    ];
  }

  pub Takes-query :
      (statement : T → Option A)
      → ((t : T) → P t → E t)
      → ((t : T) (a : A) → P t → statement t ≡ some a → Q a t)
      → Takes P (query statement) Q E
  Takes-query statement stays gives = record {
    at = λ db h. elim (Bool-cases (db.env.fails db.statements)) [
      | inl down ↦ simp (down, sql_steps) (stays db.tables h)
      | inr up ↦ elim (Option-cases (statement db.tables)) [
        | inl bad ↦ simp (up, bad, sql_steps) (stays db.tables h)
        | inr (a, good) ↦ simp (up, good, sql_steps) (gives db.tables a h good)
      ]
    ];
  }

  pub Takes-result_of :
      (a : A) → ((t : T) → P t → E t) → ((t : T) → P t → Q a t) → Takes P (result_of a) Q E
  Takes-result_of a stays gives = record {
    at = λ db h. elim (Bool-cases (db.env.result_fails db.statements)) [
      | inl down ↦ simp (down, sql_steps) (stays db.tables h)
      | inr up ↦ simp (up, sql_steps) (gives db.tables h)
    ];
  }

  -- A transaction is judged from the tables that it found.
  module _ (undone : T → T → T) (During : T → T → Type 0) where
    back :
        (before : T) (x : Result A × Db T)
        → ((t : T) → During before t → E (undone before t))
        → Lands (λ a db. Q a db.tables) (λ db. During before db.tables) x
        → Lands (λ a db. Q a db.tables) (λ db. E db.tables) (rolled_back undone before x)
    back before (ok a, db) u h = h
    back before (err e, db) u h = u db.tables h

    pub Takes-in_transaction :
        (m : Action (Db T) A)
        → ((before t : T) → P before → During before t → E (undone before t))
        → ((before : T) → P before → Takes (λ t. t ≡ before) m Q (During before))
        → Takes P (in_transaction undone m) Q E
    Takes-in_transaction m u body = record {
      at = λ db h. back db.tables (m db) (λ t. u db.tables t h) ((body db.tables h).at db refl);
    }

module _ {T : Type 0} {P : T → Type 0} {E : T → Type 0} (stays : (t : T) → P t → E t) where
  pub Takes-begin : (text : String) → Takes P (wrap_error text begin) (λ now t. P t) E
  Takes-begin text =
      Takes-wrap_error P (λ now t. P t) E text _
        (Takes-exec P (λ now t. P t) E _ stays λ now t n t' h e. subst P (began now t n t' e) h)
    where
      began :
          (now : ℕ) (t : T) (n : ℕ) (t' : T)
          → ◌≡◌ {A = Option (ℕ × T)} (some (now, t)) (some (n, t'))
          → t ≡ t'
      began now t n t' e = cc

  pub Takes-commit_tx : (text : String) → Takes P (wrap_error text commit_tx) (λ u t. P t) E
  Takes-commit_tx text =
      Takes-wrap_error P (λ u t. P t) E text _
        (Takes-exec P (λ u t. P t) E _ stays λ now t n t' h e. subst P (done t n t' e) h)
    where
      done :
          (t : T) (n : Unit {0}) (t' : T)
          → ◌≡◌ {A = Option (Unit {0} × T)} (some (tt, t)) (some (n, t'))
          → t ≡ t'
      done t n t' e = cc
