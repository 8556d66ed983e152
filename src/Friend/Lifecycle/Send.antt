-- ===== src/Friend/Lifecycle/Send.antt =====
-- `SendFriendRequest` of internal/service/friend.go against the abstract machine.
use slps_team.Prelude.{
  ℕ, suc, ◌≡◌, ◌≢◌, refl, arith, true, List, Option, none, some, Option-cases, inl, inr,
}
use slps_team.Errors.{Sentinel, sentinel}
use slps_team.Flow.{ok, err, flow_steps}
use slps_team.Sql.{Db}
use slps_team.Friend.{FriendshipStatus, Tables, Row, satisfies_constraints, known}
use slps_team.Friend.Table.{new_row, upsert}
use slps_team.Friend.Store.{ensure_user_order, get_friendship_status}
use slps_team.Friend.Service.{
  refuse_by_status, Clients, send_friend_request, friendship_status_between,
}
use slps_team.Friend.Laws.{standing_of}
use slps_team.Friend.Lifecycle.{standing, done, refused, on_send, Implements}
use slps_team.Friend.Lifecycle.Calm.{IsCalm, changed, get_friendship_calm, create_friendship_calm}
use slps_team.Friend.Lifecycle.Rows.{
  ticked, status_of, row_of, standing-row_of, eq_false, Implements-done, Implements-refused,
  standing_after_upsert,
}

new_row_ok :
    (a b : ℕ) (users : List ℕ) (now : ℕ)
    → a ≢ b
    → known users a ≡ true
    → known users b ≡ true
    → let (f, s) = ensure_user_order a b in
      satisfies_constraints users (new_row f s a FriendshipStatus.pending now) ≡ true
unfolding ensure_user_order satisfies_constraints
new_row_ok a b users now ne ha hb = ground arith

module _ (a b : ℕ) (db : Db Tables) (calm : IsCalm db.env) where
  status_between_calm :
      friendship_status_between a b db ≡ (ok (status_of (row_of a b db.tables)), ticked db)
  unfolding friendship_status_between get_friendship_status
  status_between_calm = elim (Option-cases (row_of a b db.tables)) [
    | inl missing ↦ simp (get_friendship_calm a b db calm, missing)
    | inr (r, hit) ↦ simp (get_friendship_calm a b db calm, hit)
  ]

  -- Both branches of the test on the sender refuse.
  refuse_pending :
      (r : Row)
      → row_of a b db.tables ≡ some r
      → r.status ≡ FriendshipStatus.pending
      → refuse_by_status a b (status_of (row_of a b db.tables)) (ticked db)
        ≡ (err (sentinel Sentinel.already_exists), ticked (ticked db))
  refuse_pending r e h =
      simp (e, h, get_friendship_calm a b (ticked db) calm, flow_steps) (ground arith)

  module _ (c : Clients) (ne : a ≢ b) (exists : c.is_user_exists b ≡ ok true)
      (ha : known db.tables.users a ≡ true) (hb : known db.tables.users b ≡ true) where
    abbrev requested : Db Tables
    requested =
        let (f, s) = ensure_user_order a b in
        changed (ticked db)
          (upsert f s a FriendshipStatus.pending (db.env.time (suc db.statements)) db.tables.rows)

    -- The checks let the request through.
    send_goes_through :
        refuse_by_status a b (status_of (row_of a b db.tables)) (ticked db) ≡ (ok tt, ticked db)
        → Implements (done (some (FriendshipStatus.pending, a))) a b (send_friend_request c a b) db
    unfolding send_friend_request
    send_goes_through passed =
        Implements-done a b db (send_friend_request c a b) requested _
          (simp (
            eq_false ne,
            exists,
            status_between_calm,
            passed,
            create_friendship_calm a b (ticked db) calm (new_row_ok a b _ _ ne ha hb),
            flow_steps,
          ))
          (λ x y. standing_after_upsert a b db.tables x y FriendshipStatus.pending _)

    send_is_refused :
        (db' : Db Tables) (t : Sentinel)
        → refuse_by_status a b (status_of (row_of a b db.tables)) (ticked db)
          ≡ (err (sentinel t), db')
        → db'.tables ≡ db.tables
        → Implements (refused t) a b (send_friend_request c a b) db
    unfolding send_friend_request
    send_is_refused db' t stopped kept =
        Implements-refused a b db (send_friend_request c a b) db' t
          (simp (eq_false ne, exists, status_between_calm, stopped, flow_steps)) kept

    send_by_row :
        (o : Option Row)
        → row_of a b db.tables ≡ o
        → Implements (on_send a (standing_of o)) a b (send_friend_request c a b) db
    send_by_row none e = send_goes_through (rw e)
    send_by_row (some r) e = send_by_status r.status refl
      where
        send_by_status :
            (st : FriendshipStatus)
            → r.status ≡ st
            → Implements
                (on_send a (some (r.status, r.action_user_id)))
                a
                b
                (send_friend_request c a b)
                db
        send_by_status FriendshipStatus.pending h =
            rw h (send_is_refused (ticked (ticked db)) _ (refuse_pending r e h) refl)
        send_by_status FriendshipStatus.accepted h =
            rw h (send_is_refused (ticked db) _ (simp (e, h)) refl)
        send_by_status FriendshipStatus.blocked h =
            rw h (send_is_refused (ticked db) _ (simp (e, h)) refl)
        send_by_status st h = rw h (send_goes_through (simp (e, h)))

  -- While the database answers, for a request to another user, of whom the user service says that
  -- it exists, and with both in the table of users: the call opens a pending request where there is
  -- no standing or a rejected one, is refused as already existing on a pending or accepted one and
  -- as denied on a blocked one, and touches no other pair.
  pub send-Implements :
      (c : Clients)
      → a ≢ b
      → c.is_user_exists b ≡ ok true
      → known db.tables.users a ≡ true
      → known db.tables.users b ≡ true
      → Implements (on_send a (standing a b db.tables)) a b (send_friend_request c a b) db
  send-Implements c ne exists ha hb =
      rw (standing-row_of a b db.tables) (send_by_row c ne exists ha hb _ refl)
