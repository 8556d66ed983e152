-- ===== src/Sql/Keeps.antt =====
-- Predicates of the tables that an action preserves, whether it fails or not: the rules for
-- statements, beside those of Flow/Keeps.
use slps_team.Prelude.{
  ℕ, String, subst, ◌≡◌, Option, some, Option-cases, Bool-cases, inl, inr, List,
}
use slps_team.Flow.{Result, ok, err, Action}
use slps_team.Flow.Keeps.{Keeps}
use slps_team.Sql.{
  Db, begin, commit_tx, in_transaction, rolled_back, exec, query, result_of, unchecked_rows,
  wrap_error, wrapping, sql_steps,
}

abbrev pub Preserves : {T A : Type 0} → (T → Type 0) → Action (Db T) A → Type 0
Preserves P m = Keeps (λ db. P db.tables) m

module _ {T : Type 0} (P : T → Type 0) where
  wrapping-tables :
      {A : Type 0} (text : String) (x : Result A × Db T)
      → P x.1.tables
      → P (wrapping text x).1.tables
  wrapping-tables text (ok a, t) h = h
  wrapping-tables text (err e, t) h = h

module _ {T : Type 0} (P : T → Type 0) where
  module _ {A : Type 0} where
    pub Preserves-query : (statement : T → Option A) → Preserves P (query statement)
    Preserves-query statement = record {
      at = λ db h. elim (Bool-cases (db.env.fails db.statements)) [
        | inl down ↦ simp (down, sql_steps) h
        | inr up ↦ elim (Option-cases (statement db.tables)) [
          | inl bad ↦ simp (up, bad, sql_steps) h
          | inr (a, good) ↦ simp (up, good, sql_steps) h
        ]
      ];
    }

    pub Preserves-result_of : (a : A) → Preserves P (result_of a)
    Preserves-result_of a = record { at = λ db h. h }

    pub Preserves-unchecked_rows : (rows : List A) → Preserves P (unchecked_rows rows)
    Preserves-unchecked_rows rows = record { at = λ db h. h }

    pub Preserves-wrap_error :
        (text : String) (m : Action (Db T) A) → Preserves P m → Preserves P (wrap_error text m)
    Preserves-wrap_error text m k = record {
      at = λ db h. wrapping-tables P text (m db) (k.at db h);
    }

    -- A statement preserves what its effect on the tables does.
    pub Preserves-exec :
        (statement : ℕ → T → Option (A × T))
        → ((now : ℕ) (t : T) (a : A) (t' : T) → P t → statement now t ≡ some (a, t') → P t')
        → Preserves P (exec statement)
    Preserves-exec statement keeps = record {
      at = λ db h. elim (Bool-cases (db.env.fails db.statements)) [
        | inl down ↦ simp (down, sql_steps) h
        | inr up ↦ elim (Option-cases (statement (db.env.time db.statements) db.tables)) [
          | inl bad ↦ simp (up, bad, sql_steps) h
          | inr ((n, t), good) ↦
              simp (up, good, sql_steps) (keeps (db.env.time db.statements) db.tables n t h good)
        ]
      ];
    }

    -- A transaction preserves what its block and its rollback do.
    pub Preserves-in_transaction :
        (undone : T → T → T) (m : Action (Db T) A)
        → ((before t : T) → P before → P t → P (undone before t))
        → Preserves P m
        → Preserves P (in_transaction undone m)
    Preserves-in_transaction undone m back k = record {
      at = λ db h. rolled (m db) db.tables h (k.at db h);
    }
      where
        rolled :
            (x : Result A × Db T) (before : T)
            → P before
            → P x.1.tables
            → P (rolled_back undone before x).1.tables
        rolled (ok a, db) before b h = h
        rolled (err e, db) before b h = back before db.tables b h

  pub Preserves-begin : Preserves P begin
  Preserves-begin = Preserves-exec _ λ now t n t' h e. subst P (began now t n t' e) h
    where
      began :
          (now : ℕ) (t : T) (n : ℕ) (t' : T)
          → ◌≡◌ {A = Option (ℕ × T)} (some (now, t)) (some (n, t'))
          → t ≡ t'
      began now t n t' e = cc

  pub Preserves-commit_tx : Preserves P commit_tx
  Preserves-commit_tx = Preserves-exec _ λ now t n t' h e. subst P (done t n t' e) h
    where
      done :
          (t : T) (n : Unit {0}) (t' : T)
          → ◌≡◌ {A = Option (Unit {0} × T)} (some (tt, t)) (some (n, t'))
          → t ≡ t'
      done t n t' e = cc
