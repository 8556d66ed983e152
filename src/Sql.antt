-- ===== src/Sql.antt =====
-- One SQL statement after another against PostgreSQL, as internal/repository/db runs them through
-- `database/sql`. The tables are the state. What the outside decides is a fixed but unknown
-- environment: whether the n-th statement fails, whether reading its result fails and after how many
-- rows, which row a LIMIT without an order picks, and the database's clock. A statement that fails, or
-- that a constraint refuses, changes nothing.
pub mod Keeps
pub mod Calm
pub mod Success
pub mod Focus
pub mod Meets
use slps_team.Prelude.{ℕ, suc, String, Bool, Option, none, some, List, take, if◌then◌else◌}
use slps_team.Errors.{Error, wrapped, foreign}
use slps_team.Flow.{Result, ok, err, Action, flow_steps}

pub record Env : Type 0 where
  pub fails : ℕ → Bool
  pub result_fails : ℕ → Bool
  pub rows_read : ℕ → ℕ
  pub pick : ℕ → ℕ
  pub time : ℕ → ℕ

pub record Db (T : Type 0) : Type 0 where
  pub tables : T
  pub statements : ℕ
  pub env : Env

abbrev pub driver_error : Error
driver_error = foreign "pq"

module _ {T : Type 0} where
  -- `db.ExecContext`: the statement is given the clock, and returns the rows affected, or what its
  -- RETURNING names.
  abbrev pub exec : {A : Type 0} → (ℕ → T → Option (A × T)) → Action (Db T) A
  exec statement db =
      let n = db.statements in
      if db.env.fails n
      then (err driver_error, record db { statements = suc n })
      else elim (statement (db.env.time n) db.tables) [
        | none ↦ (err driver_error, record db { statements = suc n })
        | some (count, t) ↦ (ok count, record db { tables = t; statements = suc n })
      ]

  -- `result.RowsAffected()`, or the rest of a result: `rows.Next`, `rows.Scan`, `rows.Err`.
  abbrev pub result_of : {A : Type 0} → A → Action (Db T) A
  result_of a db = (if db.env.result_fails db.statements then err driver_error else ok a, db)

  -- A loop over `rows.Next` with no `rows.Err` after it: a result that breaks off is taken for a whole
  -- one.
  abbrev pub unchecked_rows : {A : Type 0} → List A → Action (Db T) (List A)
  unchecked_rows rows db = (
    ok (
        if db.env.result_fails db.statements
        then take (db.env.rows_read db.statements) rows
        else rows),
    db,
  )

  -- `db.QueryContext`: the rows that a SELECT returns; `none` is a refused statement.
  abbrev pub query : {A : Type 0} → (T → Option A) → Action (Db T) A
  query statement db =
      let n = db.statements in
      if db.env.fails n
      then (err driver_error, record db { statements = suc n })
      else elim (statement db.tables) [
        | none ↦ (err driver_error, record db { statements = suc n })
        | some a ↦ (ok a, record db { statements = suc n })
      ]

module _ {T : Type 0} where
  -- Which of its rows the next statement picks, where it asks for one of several.
  abbrev pub any_row : Action (Db T) ℕ
  any_row db = (ok (db.env.pick db.statements), db)

  -- `db.Begin`, which gives the time that CURRENT_TIMESTAMP has in the transaction, and `tx.Commit`.
  abbrev pub begin : Action (Db T) ℕ
  begin = exec λ now t. some (now, t)

  abbrev pub commit_tx : Action (Db T) (Unit {0})
  commit_tx = exec λ now t. some (tt, t)

  -- What has been written goes back after an error, but for what no rollback reaches.
  abbrev pub rolled_back : {A : Type 0} → (T → T → T) → T → Result A × Db T → Result A × Db T
  rolled_back undone before (ok a, db) = (ok a, db)
  rolled_back undone before (err e, db) = (err e, record db { tables = undone before db.tables })

  -- A transaction from its `begin` to its `commit_tx`, with its rollback.
  abbrev pub in_transaction : {A : Type 0} → (T → T → T) → Action (Db T) A → Action (Db T) A
  in_transaction undone body db = rolled_back undone db.tables (body db)

  -- Whether a result breaks off, and the rows that are read of it: `rows.Err`, for a loop that runs
  -- other statements.
  abbrev pub result_breaks : Action (Db T) Bool
  result_breaks db = (ok (db.env.result_fails db.statements), db)

abbrev pub wrapping : {S A : Type 0} → String → Result A × S → Result A × S
wrapping m (ok a, s) = (ok a, s)
wrapping m (err e, s) = (err (wrapped m e), s)

-- `fmt.Errorf("…: %w", err)` around one call.
abbrev pub wrap_error : {S A : Type 0} → String → Action S A → Action S A
wrap_error m act s = wrapping m (act s)

pub ruleset sql_steps =
    (flow_steps, wrap_error, wrapping, exec, query, result_of, unchecked_rows, rolled_back)
