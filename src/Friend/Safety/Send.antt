-- ===== src/Friend/Safety/Send.antt =====
-- `SendFriendRequest` in any environment: the tables stay, or the pair moves as the machine says.
use slps_team.Prelude.{
  ℕ, ◌≡◌, refl, ap, ◌∙◌, arith, Bool, true, false, ◌==◌, Option, none, some, Option-cases,
  Bool-cases, inl, inr,
}
use slps_team.Errors.{Error, Sentinel, sentinel}
use slps_team.Flow.{Result, ok, err, flow_steps}
use slps_team.Sql.{Db}
use slps_team.Friend.{FriendshipStatus, Tables, Row}
use slps_team.Friend.Store.{get_friendship, get_friendship_status, create_friendship}
use slps_team.Friend.Service.{
  refuse_by_status, Clients, send_friend_request, friendship_status_between,
}
use slps_team.Friend.Lifecycle.{standing, done, on_send}
use slps_team.Friend.Lifecycle.Calm.{found}
use slps_team.Friend.Lifecycle.Rows.{
  ticked, status_of, row_of, standing-row_of, standing_after_upsert,
}
use slps_team.Friend.Safety.{sends, Follows}
use slps_team.Friend.Safety.Store.{
  get_friendship_any, create_friendship_any, state-handled, insert_ran,
}

module _ (clients : Clients) (a b : ℕ) (db : Db Tables) where
  -- The request reaches the INSERT.
  send_inserts :
      on_send a (standing a b db.tables) ≡ done (some (FriendshipStatus.pending, a))
      → (db' : Db Tables) → db'.tables ≡ db.tables
      → (t' : Tables) → t' ≡ (create_friendship a b db').1.tables
      → Follows (sends a b) db.tables t'
  send_inserts says db' kept t' e = elim (create_friendship_any a b db') [
    | inl same ↦ inl (e ∙ same ∙ kept)
    | inr (n, ran) ↦ inr (
      some (FriendshipStatus.pending, a),
      says,
      λ x y.
          rw (e, insert_ran _ _ a _ FriendshipStatus.pending db'.tables n _ ran, kept)
            (standing_after_upsert a b db.tables x y FriendshipStatus.pending _),
    )
  ]

  module _ (other : a == b ≡ false) (exists : clients.is_user_exists b ≡ ok true)
      (up : get_friendship a b db ≡ (found (row_of a b db.tables), ticked db)) where
    status_between_found :
        friendship_status_between a b db ≡ (ok (status_of (row_of a b db.tables)), ticked db)
    unfolding friendship_status_between get_friendship_status
    status_between_found = elim (Option-cases (row_of a b db.tables)) [
      | inl missing ↦ simp (up, missing)
      | inr (r, hit) ↦ simp (up, hit)
    ]

    send_through :
        refuse_by_status a b (status_of (row_of a b db.tables)) (ticked db) ≡ (ok tt, ticked db)
        → on_send a (standing a b db.tables) ≡ done (some (FriendshipStatus.pending, a))
        → Follows (sends a b) db.tables (send_friend_request clients a b db).1.tables
    unfolding send_friend_request
    send_through passed says = send_inserts says (ticked db) refl _ (
        simp (other, exists, status_between_found, passed, flow_steps)
          (ap (λ (s : Db Tables). s.tables)
            (state-handled (λ _. Sentinel.db) (create_friendship a b (ticked db)))))

    send_stopped :
        (e : Error) (db' : Db Tables)
        → refuse_by_status a b (status_of (row_of a b db.tables)) (ticked db) ≡ (err e, db')
        → db'.tables ≡ db.tables
        → Follows (sends a b) db.tables (send_friend_request clients a b db).1.tables
    unfolding send_friend_request
    send_stopped e db' stopped kept =
        inl (simp (other, exists, status_between_found, stopped, flow_steps) kept)

    send_by_row :
        (o : Option Row)
        → row_of a b db.tables ≡ o
        → Follows (sends a b) db.tables (send_friend_request clients a b db).1.tables
    send_by_row none e = send_through (rw e) (rw (standing-row_of a b db.tables, e) refl)
    send_by_row (some r) e = send_by_status r.status refl
      where
        says : on_send a (standing a b db.tables) ≡ on_send a (some (r.status, r.action_user_id))
        says = rw (standing-row_of a b db.tables, e) refl

        send_by_status :
            (st : FriendshipStatus)
            → r.status ≡ st
            → Follows (sends a b) db.tables (send_friend_request clients a b db).1.tables
        send_by_status FriendshipStatus.pending h = elim (get_friendship_any a b (ticked db)) [
          | inl again ↦
              send_stopped (sentinel Sentinel.already_exists) (ticked (ticked db))
                (simp (e, h, again, flow_steps) (ground arith)) refl
          | inr down ↦
              send_stopped (sentinel Sentinel.db) (ticked (ticked db))
                (simp (e, h, down, flow_steps)) refl
        ]
        send_by_status FriendshipStatus.accepted h =
            send_stopped (sentinel Sentinel.already_exists) (ticked db) (simp (e, h)) refl
        send_by_status FriendshipStatus.blocked h =
            send_stopped (sentinel Sentinel.access_denied) (ticked db) (simp (e, h)) refl
        send_by_status st h = send_through (simp (e, h)) (says ∙ rw h refl)

  send_by_client :
      (r : Result Bool)
      → clients.is_user_exists b ≡ r
      → a == b ≡ false
      → Follows (sends a b) db.tables (send_friend_request clients a b db).1.tables
  unfolding send_friend_request friendship_status_between get_friendship_status
  send_by_client (err e) h other = inl (simp (other, h, flow_steps))
  send_by_client (ok false) h other = inl (simp (other, h, flow_steps))
  send_by_client (ok true) h other = elim (get_friendship_any a b db) [
    | inr down ↦ inl (simp (other, h, down, flow_steps))
    | inl up ↦ send_by_row other h up _ refl
  ]

  pub send-Follows : Follows (sends a b) db.tables (send_friend_request clients a b db).1.tables
  unfolding send_friend_request
  send-Follows = elim (Bool-cases (a == b)) [
    | inl self ↦ inl (simp (self, flow_steps))
    | inr other ↦ send_by_client _ refl other
  ]
