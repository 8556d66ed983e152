-- ===== src/Friend/Lifecycle/Calm.antt =====
-- The methods of the store while the database answers.
use slps_team.Prelude.{
  ℕ, suc, ◌≡◌, true, false, ◌==◌, List, map, keep, not, all, tally, ◌||◌, Option, none, some,
  Option-cases, inl, inr,
}
pub use slps_team.Sql.Calm.{IsCalm}
use slps_team.Errors.{Sentinel, sentinel}
use slps_team.Flow.{Result, ok, err}
use slps_team.Sql.{Db, sql_steps}
use slps_team.Friend.{FriendshipStatus, Tables, Row, Friendship, satisfies_constraints}
use slps_team.Friend.Table.{
  has_key, select_row, new_row, upsert, assign, assign_at, insert_or_update, update_rows,
  delete_rows,
}
use slps_team.Friend.Store.{
  ensure_user_order, create_friendship, get_friendship, update_friendship_status, delete_friendship,
}

abbrev pub found : Option Row → Result Friendship
found none = err (sentinel Sentinel.friendship_not_found)
found (some r) = ok (record { id = 0; row = r })

abbrev pub changed : Db Tables → List Row → Db Tables
changed db rows = record db {
  tables = record (db.tables) { rows = rows };
  statements = suc db.statements;
}

module _ (a b : ℕ) (db : Db Tables) (calm : IsCalm db.env) where
  pub get_friendship_calm :
      let (f, s) = ensure_user_order a b in
      get_friendship a b db
      ≡ (found (select_row f s db.tables.rows), record db { statements = suc db.statements })
  unfolding get_friendship
  get_friendship_calm =
      let (f, s) = ensure_user_order a b in
      elim (Option-cases (select_row f s db.tables.rows)) [
        | inl missing ↦ simp (calm.answers db.statements, sql_steps, missing)
        | inr (r, hit) ↦ simp (calm.answers db.statements, sql_steps, hit)
      ]

  pub create_friendship_calm :
      let (f, s) = ensure_user_order a b in
      satisfies_constraints db.tables.users
          (new_row f s a FriendshipStatus.pending (db.env.time db.statements))
        ≡ true
      → create_friendship a b db ≡ (
        ok tt,
        changed db
            (upsert f s a FriendshipStatus.pending (db.env.time db.statements) db.tables.rows),
      )
  unfolding create_friendship insert_or_update
  create_friendship_calm h = simp (calm.answers db.statements, sql_steps, h)

  pub update_friendship_status_calm :
      (st : FriendshipStatus)
      → let (f, s) = ensure_user_order a b in
        all
            (λ r.
              not (has_key f s r)
              || satisfies_constraints db.tables.users (assign a st (db.env.time db.statements) r))
            db.tables.rows
          ≡ true
        → tally (has_key f s) db.tables.rows == 0 ≡ false
        → update_friendship_status a b st db ≡ (
          ok tt,
          changed db (map (assign_at f s a st (db.env.time db.statements)) db.tables.rows),
        )
  unfolding update_friendship_status update_rows
  update_friendship_status_calm st h one =
      simp (calm.answers db.statements, calm.readable (suc db.statements), sql_steps, h, one)

  pub delete_friendship_calm :
      let (f, s) = ensure_user_order a b in
      tally (has_key f s) db.tables.rows == 0 ≡ false
      → delete_friendship a b db
        ≡ (ok tt, changed db (keep (λ r. not (has_key f s r)) db.tables.rows))
  unfolding delete_friendship delete_rows
  delete_friendship_calm one =
      simp (calm.answers db.statements, calm.readable (suc db.statements), sql_steps, one)

  pub delete_friendship_missing :
      let (f, s) = ensure_user_order a b in
      tally (has_key f s) db.tables.rows == 0 ≡ true
      → delete_friendship a b db ≡ (
        err (sentinel Sentinel.friendship_not_found),
        changed db (keep (λ r. not (has_key f s r)) db.tables.rows),
      )
  unfolding delete_friendship delete_rows
  delete_friendship_missing zero_rows =
      simp (calm.answers db.statements, calm.readable (suc db.statements), sql_steps, zero_rows)
