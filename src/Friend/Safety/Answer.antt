-- ===== src/Friend/Safety/Answer.antt =====
-- `AcceptFriendRequest`, `RejectFriendRequest` and `RemoveFriend` in any environment: the tables
-- stay, or the pair moves as the machine says.
use slps_team.Prelude.{
  ℕ, ◌≡◌, refl, ap, ◌∙◌, arith, false, Option, none, some, Bool-cases, inl, inr,
}
use slps_team.Errors.{Sentinel}
use slps_team.Flow.{flow_steps}
use slps_team.Sql.{Db}
use slps_team.Friend.{FriendshipStatus, Tables, Row}
use slps_team.Friend.Table.{update_rows, delete_rows}
use slps_team.Friend.Store.{
  ensure_user_order, get_friendship, update_friendship_status, delete_friendship,
}
use slps_team.Friend.Service.{
  not_receiver, accept_friend_request, reject_friend_request, remove_friend, answer_request,
}
use slps_team.Friend.Laws.{standing_of}
use slps_team.Friend.Lifecycle.{standing, Verdict, done, on_answer, on_remove}
use slps_team.Friend.Lifecycle.Calm.{found}
use slps_team.Friend.Lifecycle.Rows.{
  ticked, row_of, standing-row_of, standing_after_answer, tally-row_of-none, standing_after_delete,
}
use slps_team.Friend.Safety.{accepts, rejects, removes, Follows, Moves}
use slps_team.Friend.Safety.Store.{
  get_friendship_any, update_friendship_status_any, delete_friendship_any, Ran, state-handled,
  update_ran, delete_ran,
}

-- Who may answer, by the machine.
receiver_says :
    (st : FriendshipStatus) (u : ℕ) (r : Row)
    → not_receiver u (record { id = 0; row = r }) ≡ false
    → on_answer st u (standing_of (some r)) ≡ done (some (st, u))
receiver_says st u r h = ground arith

module _ (u friend : ℕ) (db : Db Tables) where
  remove_by_row :
      (o : Option Row)
      → row_of u friend db.tables ≡ o
      → (t' : Tables)
      → Ran u friend db (let (f, s) = ensure_user_order u friend in delete_rows f s) t'
      → Moves (on_remove (standing_of o)) u friend db.tables t'
  remove_by_row o e t' (inl same) = inl same
  remove_by_row none e t' (inr (n, ran)) = inl (
      delete_ran _ _ u _ FriendshipStatus.unset db.tables n t' ran
      ∙ ap (λ rows. record (db.tables) { rows = rows }) (tally-row_of-none u friend db.tables e).1)
  remove_by_row (some r) e t' (inr (n, ran)) = inr (
    none,
    refl,
    λ x y.
        rw (delete_ran _ _ u _ FriendshipStatus.unset db.tables n t' ran)
          (standing_after_delete u friend db.tables x y),
  )

  pub remove-Follows : Follows (removes u friend) db.tables (remove_friend u friend db).1.tables
  unfolding remove_friend
  remove-Follows =
      rw
        (
          standing-row_of u friend db.tables,
          state-handled (λ _. Sentinel.db) (delete_friendship u friend db),
        )
        (remove_by_row _ refl _ (delete_friendship_any u friend db))

  module _ (st : FriendshipStatus) where
    -- The answer reaches the UPDATE.
    answer_through :
        (r : Row)
        → row_of u friend db.tables ≡ some r
        → get_friendship u friend db ≡ (found (row_of u friend db.tables), ticked db)
        → not_receiver u (record { id = 0; row = r }) ≡ false
        → (answer_request st u friend db).1.tables
          ≡ (update_friendship_status u friend st (ticked db)).1.tables
    answer_through r e up h =
        simp (up, e, h, flow_steps)
          (ap (λ (s : Db Tables). s.tables)
            (state-handled (λ _. Sentinel.db) (update_friendship_status u friend st (ticked db))))

    answer_updates :
        (r : Row) (v : Verdict)
        → row_of u friend db.tables ≡ some r
        → v ≡ done (some (st, u))
        → (t' : Tables)
        → Ran u friend
            (ticked db)
            (let (f, s) = ensure_user_order u friend in update_rows f s u st)
            t'
        → Moves v u friend db.tables t'
    answer_updates r v e says t' (inl same) = inl same
    answer_updates r v e says t' (inr (n, ran)) = inr (
      some (st, u),
      says,
      λ x y.
          rw (update_ran _ _ u _ st db.tables n t' ran)
            (standing_after_answer u friend db.tables st _ e x y),
    )

    answer_by_row :
        (o : Option Row)
        → row_of u friend db.tables ≡ o
        → get_friendship u friend db ≡ (found (row_of u friend db.tables), ticked db)
        → Moves
            (on_answer st u (standing_of o))
            u
            friend
            db.tables
            (answer_request st u friend db).1.tables
    answer_by_row none e up = inl (simp (up, e, flow_steps))
    answer_by_row (some r) e up = elim (Bool-cases (not_receiver u (record { id = 0; row = r }))) [
      | inl stopped ↦ inl (simp (up, e, stopped, flow_steps))
      | inr receiver ↦ rw (answer_through r e up receiver) (
          answer_updates r _ e (receiver_says st u r receiver) _
            (update_friendship_status_any u friend (ticked db) st))
    ]

    answer-Moves :
        Moves
          (on_answer st u (standing u friend db.tables))
          u
          friend
          db.tables
          (answer_request st u friend db).1.tables
    answer-Moves = rw (standing-row_of u friend db.tables) (elim (get_friendship_any u friend db) [
      | inl up ↦ answer_by_row _ refl up
      | inr down ↦ inl (simp (down, flow_steps))
    ])

  pub accept-Follows :
      Follows (accepts u friend) db.tables (accept_friend_request u friend db).1.tables
  unfolding accept_friend_request
  accept-Follows = answer-Moves FriendshipStatus.accepted

  pub reject-Follows :
      Follows (rejects u friend) db.tables (reject_friend_request u friend db).1.tables
  unfolding reject_friend_request
  reject-Follows = answer-Moves FriendshipStatus.rejected
