-- ===== src/Friend/Lifecycle/Answer.antt =====
-- `AcceptFriendRequest` and `RejectFriendRequest` of internal/service/friend.go against the
-- abstract machine.
use slps_team.Prelude.{
  ℕ, suc, ◌≡◌, refl, arith, true, false, ◌==◌, List, [], ◌∷◌, map, not, all, ◌||◌, Option, none,
  some, Bool-cases, inl, inr,
}
use slps_team.Errors.{Sentinel}
use slps_team.Flow.{flow_steps}
use slps_team.Sql.{Db}
use slps_team.Friend.{FriendshipStatus, Tables, Row, satisfies_constraints, in_enum}
use slps_team.Friend.Table.{assign, assign_at, has_key}
use slps_team.Friend.Store.{ensure_user_order}
use slps_team.Friend.Service.{
  not_receiver, accept_friend_request, reject_friend_request, answer_request,
}
use slps_team.Friend.Laws.{standing_of}
use slps_team.Friend.Lifecycle.{standing, done, refused, on_answer, Implements}
use slps_team.Friend.Lifecycle.Calm.{
  IsCalm, changed, get_friendship_calm, update_friendship_status_calm,
}
use slps_team.Friend.Lifecycle.Rows.{
  ticked, row_of, standing-row_of, Implements-done, Implements-refused, standing_after_answer,
  tally-row_of,
}
use slps_team.Friend.Constraints.{IsValid}

satisfies-answer :
    (users : List ℕ) (u friend : ℕ) (st : FriendshipStatus) (now : ℕ) (r : Row)
    → in_enum st ≡ true
    → let (f, s) = ensure_user_order u friend in
      has_key f s r ≡ true
      → satisfies_constraints users r ≡ true
      → satisfies_constraints users (assign u st now r) ≡ true
unfolding satisfies_constraints ensure_user_order
satisfies-answer users u friend st now r in_range key h = ground arith

answer_ok :
    (users : List ℕ) (u friend : ℕ) (st : FriendshipStatus) (now : ℕ) (rows : List Row)
    → in_enum st ≡ true
    → all (satisfies_constraints users) rows ≡ true
    → let (f, s) = ensure_user_order u friend in
      all (λ r. not (has_key f s r) || satisfies_constraints users (assign u st now r)) rows ≡ true
answer_ok users u friend st now [] in_range h = refl
answer_ok users u friend st now (r ∷ rs) in_range h =
    ground (arith, satisfies-answer users u friend st now r, answer_ok users u friend st now rs)

module _ (u friend : ℕ) (db : Db Tables) (calm : IsCalm db.env) (valid : IsValid db.tables)
    (st : FriendshipStatus) (in_range : in_enum st ≡ true) where
  abbrev answered : Db Tables
  answered =
      let (f, s) = ensure_user_order u friend in
      changed (ticked db)
        (map (assign_at f s u st (db.env.time (suc db.statements))) db.tables.rows)

  module _ (r : Row) (e : row_of u friend db.tables ≡ some r) where
    answer_refused :
        not_receiver u (record { id = 0; row = r }) ≡ true
        → Implements (refused Sentinel.not_found) u friend (answer_request st u friend) db
    answer_refused h =
        Implements-refused u friend db (answer_request st u friend) (ticked db) _
          (simp (get_friendship_calm u friend db calm, e, h, flow_steps)) refl

    answer_accepted :
        not_receiver u (record { id = 0; row = r }) ≡ false
        → Implements (done (some (st, u))) u friend (answer_request st u friend) db
    answer_accepted h =
        Implements-done u friend db (answer_request st u friend) answered _
          (simp (
            get_friendship_calm u friend db calm,
            e,
            h,
            update_friendship_status_calm u friend (ticked db) calm st
                (answer_ok _ u friend st _ db.tables.rows in_range valid.constrained)
                (tally-row_of u friend db.tables e),
            flow_steps,
          ))
          (standing_after_answer u friend db.tables st _ e)

  answer_by_row :
      (o : Option Row)
      → row_of u friend db.tables ≡ o
      → Implements (on_answer st u (standing_of o)) u friend (answer_request st u friend) db
  answer_by_row none e =
      Implements-refused u friend db (answer_request st u friend) (ticked db) _
        (simp (get_friendship_calm u friend db calm, e, flow_steps)) refl
  answer_by_row (some r) e = answer_by_status r.status refl
    where
      answer_by_status :
          (st' : FriendshipStatus)
          → r.status ≡ st'
          → Implements
              (on_answer st u (some (r.status, r.action_user_id)))
              u
              friend
              (answer_request st u friend)
              db
      answer_by_status FriendshipStatus.pending h = elim (Bool-cases (r.action_user_id == u)) [
        | inl own ↦ rw (h, own) (answer_refused r e (rw (h, own) refl))
        | inr foreign ↦ rw (h, foreign) (answer_accepted r e (rw (h, foreign) refl))
      ]
      answer_by_status FriendshipStatus.accepted h = rw h (answer_refused r e (rw h refl))
      answer_by_status st' h = rw h (answer_refused r e (rw h refl))

module _ (u friend : ℕ) (db : Db Tables) (calm : IsCalm db.env) (valid : IsValid db.tables) where
  -- While the database answers and the constraints hold, a pending request becomes a friendship
  -- when, and only when, the user who did not send it accepts; no other pair is touched, and every
  -- other call is refused: as not found if there is some row, as a database error if there is none.
  pub accept-Implements :
      Implements
        (on_answer FriendshipStatus.accepted u (standing u friend db.tables))
        u
        friend
        (accept_friend_request u friend)
        db
  unfolding accept_friend_request
  accept-Implements =
      rw (standing-row_of u friend db.tables)
        (answer_by_row u friend db calm valid FriendshipStatus.accepted refl _ refl)

  -- While the database answers and the constraints hold, a pending request becomes a rejected one,
  -- set by the user who rejects, when, and only when, that user did not send it, and no other pair is
  -- touched; every other call leaves the tables and is refused, with ErrDB where the pair has no
  -- standing, and else with ErrNotFound.
  pub reject-Implements :
      Implements
        (on_answer FriendshipStatus.rejected u (standing u friend db.tables))
        u
        friend
        (reject_friend_request u friend)
        db
  unfolding reject_friend_request
  reject-Implements =
      rw (standing-row_of u friend db.tables)
        (answer_by_row u friend db calm valid FriendshipStatus.rejected refl _ refl)
