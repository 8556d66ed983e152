-- ===== src/Friend/Safety/Store.antt =====
-- The methods of the store in any environment: what the tables can be afterwards.
use slps_team.Prelude.{
  ℕ, suc, String, ap, sym, ◌≡◌, refl, arith, ◌==◌, map, keep, not, Option, some, Option-cases,
  Bool-cases, inl, inr, ◌⊎◌,
}
use slps_team.Errors.{Error, Sentinel, wrapped}
use slps_team.Flow.{Result, ok, err, pure, handled, ◌>>=◌}
use slps_team.Sql.{Db, exec, wrap_error, result_of, sql_steps, driver_error}
use slps_team.Friend.{FriendshipStatus, Tables}
use slps_team.Friend.Table.{has_key, upsert, assign_at, insert_or_update, update_rows, delete_rows}
use slps_team.Friend.Store.{
  Method, affected, ensure_user_order, create_friendship, get_friendship, update_friendship_status,
  delete_friendship,
}
use slps_team.Friend.Lifecycle.Calm.{found}
use slps_team.Friend.Lifecycle.Rows.{row_of, ticked}

module _ (db : Db Tables) where
  -- A statement, and what only reads after it.
  exec_then :
      (statement : ℕ → Tables → Option (ℕ × Tables)) (text : String) (rest : ℕ → Method (Unit {0}))
      → ((n : ℕ) (db' : Db Tables) → (rest n db').1.tables ≡ db'.tables)
      → let after = (wrap_error text (exec statement) >>= rest) db in
        (after.1.tables ≡ db.tables)
        ⊎ ((n : ℕ) × (statement (db.env.time db.statements) db.tables ≡ some (n, after.1.tables)))
  exec_then statement text rest reads = elim (Bool-cases (db.env.fails db.statements)) [
    | inl down ↦ inl (simp (down, sql_steps))
    | inr up ↦ elim (Option-cases (statement (db.env.time db.statements) db.tables)) [
      | inl bad ↦ inl (simp (up, bad, sql_steps))
      | inr ((n, t), good) ↦ inr (
        n,
        simp (up, good, sql_steps)
            (ap (λ (t' : Tables). some (n, t'))
              (sym (reads n (record db { tables = t; statements = suc db.statements })))),
      )
    ]
  ]

affected_reads :
    (text : String) (n : ℕ) (db : Db Tables)
    → ((wrap_error text (result_of n) >>= affected) db).1.tables ≡ db.tables
affected_reads text n db = elim (Bool-cases (db.env.result_fails db.statements)) [
  | inl unread ↦ simp (unread, sql_steps)
  | inr read ↦ elim (Bool-cases (n == 0)) [
    | inl nothing ↦ simp (read, nothing, sql_steps)
    | inr some_rows ↦ simp (read, some_rows, sql_steps)
  ]
]

module _ (a b : ℕ) (db : Db Tables) where
  pub get_friendship_any :
      (get_friendship a b db ≡ (found (row_of a b db.tables), ticked db))
      ⊎ (get_friendship a b db ≡ (err (wrapped "failed to get friendship" driver_error), ticked db))
  unfolding get_friendship
  get_friendship_any = elim (Bool-cases (db.env.fails db.statements)) [
    | inl down ↦ inr (simp (down, sql_steps))
    | inr up ↦ elim (Option-cases (row_of a b db.tables)) [
      | inl missing ↦ inl (simp (up, sql_steps, missing))
      | inr (r, hit) ↦ inl (simp (up, sql_steps, hit))
    ]
  ]

  -- The tables stay, or the statement has run.
  abbrev pub Ran : (ℕ → Tables → Option (ℕ × Tables)) → Tables → Type 0
  Ran statement t' =
      (t' ≡ db.tables)
      ⊎ ((n : ℕ) × (statement (db.env.time db.statements) db.tables ≡ some (n, t')))

  pub create_friendship_any :
      let (f, s) = ensure_user_order a b in
      Ran (insert_or_update f s a FriendshipStatus.pending) (create_friendship a b db).1.tables
  unfolding create_friendship
  create_friendship_any =
      let (f, s) = ensure_user_order a b in
      exec_then db (insert_or_update f s a FriendshipStatus.pending) "failed to create friendship"
        (λ _. pure tt) (λ _ db'. refl)

  pub update_friendship_status_any :
      (st : FriendshipStatus)
      → let (f, s) = ensure_user_order a b in
        Ran (update_rows f s a st) (update_friendship_status a b st db).1.tables
  unfolding update_friendship_status
  update_friendship_status_any st =
      let (f, s) = ensure_user_order a b in
      exec_then db (update_rows f s a st) "Failed to update friendship status"
        (λ n. wrap_error "Failed to get rows affected" (result_of n) >>= affected)
        (affected_reads "Failed to get rows affected")

  pub delete_friendship_any :
      let (f, s) = ensure_user_order a b in
      Ran (delete_rows f s) (delete_friendship a b db).1.tables
  unfolding delete_friendship
  delete_friendship_any =
      let (f, s) = ensure_user_order a b in
      exec_then db (delete_rows f s) "failed to delete friendship"
        (λ n. wrap_error "failed to get rows affected" (result_of n) >>= affected)
        (affected_reads "failed to get rows affected")

-- What `or_return` does with an error leaves the state.
pub state-handled :
    {S A : Type 0} (handle : Error → Sentinel) (x : Result A × S) → (handled handle x).1 ≡ x.1
state-handled handle (ok a, s) = refl
state-handled handle (err e, s) = refl

module _ (f s a now : ℕ) (st : FriendshipStatus) (t : Tables) (n : ℕ) (t' : Tables) where
  pub insert_ran :
      insert_or_update f s a st now t ≡ some (n, t')
      → t' ≡ record t { rows = upsert f s a st now t.rows }
  unfolding insert_or_update
  insert_ran e = ground arith

  pub update_ran :
      update_rows f s a st now t ≡ some (n, t')
      → t' ≡ record t { rows = map (assign_at f s a st now) t.rows }
  unfolding update_rows
  update_ran e = ground arith

  pub delete_ran :
      delete_rows f s now t ≡ some (n, t')
      → t' ≡ record t { rows = keep (λ r. not (has_key f s r)) t.rows }
  unfolding delete_rows
  delete_ran e = ground arith
