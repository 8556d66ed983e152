-- ===== src/Friend/Grpc.antt =====
-- `GrpcFriendHandler` of internal/grpc/friend.go, method by method, and the HTTP status that a
-- handler of internal/handler/friend.go answers with after calling one of them.
use slps_team.Prelude.{ℕ, String, List}
use slps_team.Errors.{map_error_to_http}
use slps_team.Errors.Status.{GrpcStatus}
use slps_team.Flow.{Result, ok, err}
use slps_team.Sql.{Db}
use slps_team.Paginate.{PaginateQueryParams}
use slps_team.Grpc.{Reply, serve}
use slps_team.Friend.{FriendshipStatus, FriendshipCountType, UserRelationsCounts, Tables}
use slps_team.Friend.Service.{
  Clients, send_friend_request, accept_friend_request, reject_friend_request, remove_friend,
  friendship_status_between, get_friends, get_all_other_users, get_friend_requests,
  get_sent_friend_requests, count_relations, search_short_profiles,
}

module _ (g : GrpcStatus) (c : Clients) where
  -- A method of the server.
  abbrev pub Endpoint : Type 0 → Type 0
  Endpoint A = Db Tables → Reply g A × Db Tables

  unfoldable pub serve_send_friend_request : ℕ → ℕ → Endpoint (Unit {0})
  serve_send_friend_request action_user_id target_user_id =
      serve g (send_friend_request c action_user_id target_user_id)

  unfoldable pub serve_accept_friend_request : ℕ → ℕ → Endpoint (Unit {0})
  serve_accept_friend_request user_id friend_id = serve g (accept_friend_request user_id friend_id)

  unfoldable pub serve_reject_friend_request : ℕ → ℕ → Endpoint (Unit {0})
  serve_reject_friend_request user_id friend_id = serve g (reject_friend_request user_id friend_id)

  unfoldable pub serve_remove_friend : ℕ → ℕ → Endpoint (Unit {0})
  serve_remove_friend user_id friend_id = serve g (remove_friend user_id friend_id)

  unfoldable pub serve_get_friends : ℕ → PaginateQueryParams → Endpoint (List c.ShortProfile)
  serve_get_friends user_id page = serve g (get_friends c user_id page)

  unfoldable pub serve_get_all_users : ℕ → PaginateQueryParams → Endpoint (List c.ShortProfile)
  serve_get_all_users user_id page = serve g (get_all_other_users c user_id page)

  unfoldable pub serve_search_short_profiles :
      ℕ → PaginateQueryParams → String → FriendshipCountType → Endpoint (List c.ShortProfile)
  serve_search_short_profiles user_id page full_name ty =
      serve g (search_short_profiles c user_id page full_name ty)

  unfoldable pub serve_get_friend_requests :
      ℕ → PaginateQueryParams → Endpoint (List c.ShortProfile)
  serve_get_friend_requests user_id page = serve g (get_friend_requests c user_id page)

  unfoldable pub serve_get_sent_requests : ℕ → PaginateQueryParams → Endpoint (List c.ShortProfile)
  serve_get_sent_requests user_id page = serve g (get_sent_friend_requests c user_id page)

  unfoldable pub serve_get_friendship_status : ℕ → ℕ → Endpoint FriendshipStatus
  serve_get_friendship_status user_id friend_id =
      serve g (friendship_status_between user_id friend_id)

  unfoldable pub serve_count_user_relations : ℕ → Endpoint UserRelationsCounts
  serve_count_user_relations user_id = serve g (count_relations c user_id)

-- `sendJSONError(w, domain.FromGrpcError(err))`, or the success.
abbrev pub http_status : {A : Type 0} → Result A → ℕ
http_status (ok a) = 200
http_status (err e) = (map_error_to_http e).0
