-- ===== src/Friend/Lifecycle/Remove.antt =====
-- `RemoveFriend` of internal/service/friend.go against the abstract machine.
use slps_team.Prelude.{ℕ, ◌≡◌, refl, ap, keep, not, Option, none, some}
use slps_team.Errors.{Sentinel}
use slps_team.Flow.{flow_steps}
use slps_team.Sql.{Db}
use slps_team.Friend.{Tables, Row}
use slps_team.Friend.Table.{has_key}
use slps_team.Friend.Store.{ensure_user_order}
use slps_team.Friend.Service.{remove_friend}
use slps_team.Friend.Laws.{standing_of}
use slps_team.Friend.Lifecycle.{standing, on_remove, Implements}
use slps_team.Friend.Lifecycle.Calm.{
  IsCalm, changed, delete_friendship_calm, delete_friendship_missing,
}
use slps_team.Friend.Lifecycle.Rows.{
  row_of, standing-row_of, Implements-done, Implements-refused, standing_after_delete, tally-row_of,
  tally-row_of-none,
}

module _ (u friend : ℕ) (db : Db Tables) (calm : IsCalm db.env) where
  abbrev removed : Db Tables
  removed =
      let (f, s) = ensure_user_order u friend in
      changed db (keep (λ r. not (has_key f s r)) db.tables.rows)

  remove_by_row :
      (o : Option Row)
      → row_of u friend db.tables ≡ o
      → Implements (on_remove (standing_of o)) u friend (remove_friend u friend) db
  unfolding remove_friend
  remove_by_row none e =
      let (nothing, kept) = tally-row_of-none u friend db.tables e in
      Implements-refused u friend db (remove_friend u friend) removed Sentinel.db
        (simp (delete_friendship_missing u friend db calm nothing, flow_steps))
        (ap (λ rows. record (db.tables) { rows = rows }) kept)
  remove_by_row (some r) e =
      Implements-done u friend db (remove_friend u friend) removed none
        (simp
          (delete_friendship_calm u friend db calm (tally-row_of u friend db.tables e), flow_steps))
        (λ x y. standing_after_delete u friend db.tables x y)

  -- While the database answers, either user of a pair can end any standing that they have, and no
  -- other pair is touched; a pair with none is answered with a database error.
  pub remove-Implements :
      Implements (on_remove (standing u friend db.tables)) u friend (remove_friend u friend) db
  remove-Implements = rw (standing-row_of u friend db.tables) (remove_by_row _ refl)
