-- ===== src/Friend/Http.antt =====
-- The HTTP status of a request on a friendship, from the abstract machine of Friend/Lifecycle to the
-- client of the API, through the service, gRPC and the handler.
use slps_team.Prelude.{ℕ, ◌≡◌, ◌≢◌, refl, ap, ◌∙◌, arith, true, ◌==◌, none, some, if◌then◌else◌}
use slps_team.Errors.{sentinel, map_error_to_http}
use slps_team.Errors.Status.{GrpcStatus}
use slps_team.Errors.Channel.{carried, channel_sentinel}
use slps_team.Flow.{Result, ok}
use slps_team.Sql.{Db}
use slps_team.Grpc.{call, serve, reply_of, result_of_reply}
use slps_team.Friend.{FriendshipStatus, Tables, known}
use slps_team.Friend.Store.{Method}
use slps_team.Friend.Service.{Clients}
use slps_team.Friend.Laws.{Standing}
use slps_team.Friend.Constraints.{IsValid}
use slps_team.Friend.Grpc.{
  http_status, serve_send_friend_request, serve_accept_friend_request, serve_reject_friend_request,
  serve_remove_friend,
}
use slps_team.Friend.Lifecycle.{
  Verdict, done, refused, Implements, standing, on_send, on_answer, on_remove,
}
use slps_team.Friend.Lifecycle.Calm.{IsCalm}
use slps_team.Friend.Lifecycle.Send.{send-Implements}
use slps_team.Friend.Lifecycle.Answer.{accept-Implements, reject-Implements}
use slps_team.Friend.Lifecycle.Remove.{remove-Implements}

-- What the user of the API is told about a request to a pair of this standing.
abbrev pub send_status : Standing → ℕ
send_status (some (FriendshipStatus.pending, _)) = 409
send_status (some (FriendshipStatus.accepted, _)) = 409
send_status (some (FriendshipStatus.blocked, _)) = 403
send_status _ = 200

abbrev pub answer_status : ℕ → Standing → ℕ
answer_status u none = 500
answer_status u (some (FriendshipStatus.pending, sender)) = if sender == u then 404 else 200
answer_status u (some _) = 404

abbrev pub remove_status : Standing → ℕ
remove_status none = 500
remove_status (some _) = 200

module _ (g : GrpcStatus) where
  verdict_status : Verdict → ℕ
  verdict_status (done z) = 200
  verdict_status (refused e) = (map_error_to_http (sentinel (carried (some e)))).0

  status-result :
      (x : Result (Unit {0}) × Db Tables) (y : Result (Unit {0}))
      → x.0 ≡ y
      → http_status (result_of_reply g (reply_of g x)).0
        ≡ http_status (result_of_reply g (reply_of g (y, x.1))).0
  status-result x y e =
      ap (λ (r : Result (Unit {0})). http_status (result_of_reply g (reply_of g (r, x.1))).0) e

  status-Implements :
      (v : Verdict) (a b : ℕ) (m : Method (Unit {0})) (db : Db Tables)
      → Implements v a b m db
      → http_status (call g (serve g m) db).0 ≡ verdict_status v
  unfolding verdict_status
  status-Implements (done z) a b m db h = status-result (m db) _ h.0
  status-Implements (refused e) a b m db h =
      status-result (m db) _ h.0 ∙ ap (λ x. (map_error_to_http x).0) (channel_sentinel g e)

  send_table : (a : ℕ) (z : Standing) → verdict_status (on_send a z) ≡ send_status z
  unfolding verdict_status map_error_to_http
  send_table a none = refl
  send_table a (some (FriendshipStatus.pending, w)) = refl
  send_table a (some (FriendshipStatus.accepted, w)) = refl
  send_table a (some (FriendshipStatus.blocked, w)) = refl
  send_table a (some (st, w)) = refl

  answer_table :
      (answer : FriendshipStatus) (u : ℕ) (z : Standing)
      → verdict_status (on_answer answer u z) ≡ answer_status u z
  unfolding verdict_status map_error_to_http
  answer_table answer u none = refl
  answer_table answer u (some (FriendshipStatus.pending, sender)) = ground arith
  answer_table answer u (some (st, w)) = refl

  remove_table : (z : Standing) → verdict_status (on_remove z) ≡ remove_status z
  unfolding verdict_status map_error_to_http
  remove_table none = refl
  remove_table (some z) = refl

module _ (g : GrpcStatus) (c : Clients) (a b : ℕ) (db : Db Tables) (calm : IsCalm db.env) where
  -- While the database answers, for a request to another user, of whom the user service says that
  -- it exists, and with both in the table of users: the answer through gRPC and HTTP is 200 where
  -- the pair has no standing or a rejected one, 409 where there is a request or a friendship
  -- already, and 403 where it is blocked.
  pub send-http_status :
      a ≢ b
      → c.is_user_exists b ≡ ok true
      → known db.tables.users a ≡ true
      → known db.tables.users b ≡ true
      → http_status (call g (serve_send_friend_request g c a b) db).0
        ≡ send_status (standing a b db.tables)
  unfolding serve_send_friend_request
  send-http_status ne exists ha hb =
      status-Implements g _ a b _ db (send-Implements a b db calm c ne exists ha hb)
      ∙ send_table g a (standing a b db.tables)

  -- While the database answers and the constraints hold: an acceptance or a rejection is answered
  -- through gRPC and HTTP with 200 where the other user has a pending request, with 500, and not with
  -- 404, where the pair has no standing, and with 404 on every other standing; a removal is answered
  -- with 500 where the pair has no standing, and with 200 otherwise.
  pub answers-http_status :
      IsValid db.tables
      → (http_status (call g (serve_accept_friend_request g c a b) db).0
          ≡ answer_status a (standing a b db.tables))
        × (http_status (call g (serve_reject_friend_request g c a b) db).0
            ≡ answer_status a (standing a b db.tables))
        × (http_status (call g (serve_remove_friend g c a b) db).0
            ≡ remove_status (standing a b db.tables))
  unfolding serve_accept_friend_request serve_reject_friend_request serve_remove_friend
  answers-http_status valid = (
    status-Implements g _ a b _ db (accept-Implements a b db calm valid)
        ∙ answer_table g FriendshipStatus.accepted a (standing a b db.tables),
    status-Implements g _ a b _ db (reject-Implements a b db calm valid)
        ∙ answer_table g FriendshipStatus.rejected a (standing a b db.tables),
    status-Implements g _ a b _ db (remove-Implements a b db calm)
        ∙ remove_table g (standing a b db.tables),
  )
