-- ===== src/Friend/Tests.antt =====
-- Runs of the friend service, and each theorem at an input that meets its hypotheses.
use slps_team.Prelude.{String, arith, some, ◌+◌, ◌≢◌, ℕ, ◌≡◌, refl, true, List, [], ◌∷◌}
use slps_team.Prelude.Int.{pos, ◌-ℤ◌, ◌*ℤ◌, wrap_int32}
use slps_team.Errors.{Sentinel, sentinel}
use slps_team.Flow.{ok, err, ◌>>◌}
use slps_team.Friend.Constraints.{IsValid}
use slps_team.Friend.Lifecycle.{standing, Implements, on_send, on_answer, on_remove}
use slps_team.Sql.Calm.{calm, calm-IsCalm}
use slps_team.Friend.Lifecycle.Send.{send-Implements}
use slps_team.Friend.Lifecycle.Answer.{accept-Implements, reject-Implements}
use slps_team.Friend.Lifecycle.Remove.{remove-Implements}
use slps_team.Friend.Safety.{Call, sends, accepts, perform, run}
use slps_team.Friend.Safety.History.{friends_have_agreed, asked, agreed}
use slps_team.Friend.Safety.Valid.{run-IsValid}
use slps_team.Errors.Status.{Code, GrpcStatus}
use slps_team.Grpc.{call}
use slps_team.Friend.Grpc.{
  http_status, serve_send_friend_request, serve_accept_friend_request, serve_reject_friend_request,
  serve_remove_friend,
}
use slps_team.Friend.Http.{
  send_status, send-http_status, answer_status, remove_status, answers-http_status,
}
use slps_team.Friend.Lists.{HasSize, ids_of, counts-HasSize}
use slps_team.Sql.{Db}
use slps_team.Paginate.{validate_pagination_params, limit_offset, PaginateQueryParams}
use slps_team.Friend.{
  FriendshipStatus, FriendshipCountType, UserRelationsCounts, Tables, satisfies_constraints, known,
}
use slps_team.Friend.Store.{
  count_user_relations, Method, ensure_user_order, create_friendship, get_friendship,
  update_friendship_status, get_friendship_status, get_user_friends,
}
use slps_team.Friend.Table.{insert_or_update, update_rows}
use slps_team.Prelude.Sort.{sort}
use slps_team.Friend.Service.{
  Clients, send_friend_request, accept_friend_request, reject_friend_request, remove_friend,
  get_friends, friendship_status_between,
}

-- Four users, and no row of friendships.
abbrev four_users : Db Tables
four_users = record {
  tables = record { rows = []; users = 1 ∷ 2 ∷ 3 ∷ 4 ∷ [] };
  statements = 0;
  env = calm;
}

-- Profiles are the ids, and every user exists.
abbrev plain_clients : Clients
plain_clients = record {
  ShortProfile = ℕ;
  is_user_exists = λ _. ok true;
  short_profiles = λ ids. ok ids;
  other_short_profiles = λ ids _ _. ok ids;
  search_user_ids = λ _ ids _ _ _. ok ids;
}

abbrev first_page : PaginateQueryParams
first_page = record { limit = pos 0; page = pos 0 }

abbrev scenario : Method (List ℕ)
scenario = do
  send_friend_request plain_clients 3 1
  send_friend_request plain_clients 2 3
  accept_friend_request 1 3
  accept_friend_request 3 2
  get_friends plain_clients 3 first_page

scenario_run : (scenario four_users).0 ≡ ok (1 ∷ 2 ∷ [])
unfolding send_friend_request accept_friend_request get_friends satisfies_constraints known
    get_friendship get_friendship_status friendship_status_between create_friendship
    update_friendship_status get_user_friends ensure_user_order insert_or_update update_rows
    validate_pagination_params limit_offset sort ◌-ℤ◌ ◌*ℤ◌ wrap_int32
scenario_run = refl

-- A second request in either direction is refused.
abbrev crossing : Method (Unit {0})
crossing = do send_friend_request plain_clients 3 1; send_friend_request plain_clients 1 3

crossing_run : (crossing four_users).0 ≡ err (sentinel Sentinel.already_exists)
unfolding send_friend_request satisfies_constraints known get_friendship get_friendship_status
    friendship_status_between create_friendship ensure_user_order insert_or_update
crossing_run = refl

four_users-IsValid : IsValid four_users.tables
four_users-IsValid = record { constrained = refl; unique = tt }

-- User 3 has asked user 1.
abbrev one_request : Db Tables
one_request = record {
  tables = record {
    rows =
        record {
          first_user_id = 1;
          second_user_id = 3;
          action_user_id = 3;
          status = FriendshipStatus.pending;
          created_at = 5;
          updated_at = 5;
        }
        ∷ [];
    users = 1 ∷ 2 ∷ 3 ∷ 4 ∷ [];
  };
  statements = 0;
  env = calm;
}

one_request-IsValid : IsValid one_request.tables
unfolding satisfies_constraints known
one_request-IsValid = record { constrained = refl; unique = (refl, tt) }

known_user : (known (1 ∷ 2 ∷ 3 ∷ 4 ∷ []) 3 ≡ true) × (known (1 ∷ 2 ∷ 3 ∷ 4 ∷ []) 1 ≡ true)
unfolding known
known_user = (refl, refl)

send-Implements_example :
    Implements
      (on_send 3 (standing 3 1 four_users.tables))
      3
      1
      (send_friend_request plain_clients 3 1)
      four_users
send-Implements_example =
    send-Implements 3 1 four_users calm-IsCalm plain_clients (omega arith) refl known_user.0
      known_user.1

accept-Implements_example :
    Implements
      (on_answer FriendshipStatus.accepted 1 (standing 1 3 one_request.tables))
      1
      3
      (accept_friend_request 1 3)
      one_request
accept-Implements_example = accept-Implements 1 3 one_request calm-IsCalm one_request-IsValid

reject-Implements_example :
    Implements
      (on_answer FriendshipStatus.rejected 1 (standing 1 3 one_request.tables))
      1
      3
      (reject_friend_request 1 3)
      one_request
reject-Implements_example = reject-Implements 1 3 one_request calm-IsCalm one_request-IsValid

remove-Implements_example :
    Implements (on_remove (standing 3 1 one_request.tables)) 3 1 (remove_friend 3 1) one_request
remove-Implements_example = remove-Implements 3 1 one_request calm-IsCalm

abbrev calls : List Call
calls = sends 3 1 ∷ accepts 3 1 ∷ accepts 1 3 ∷ []

-- The constraints that other theorems assume hold after any calls.
calls-IsValid : IsValid (run plain_clients calls four_users).tables
calls-IsValid = run-IsValid plain_clients calls four_users four_users-IsValid

became_friends :
    standing 1 3 (run plain_clients calls four_users).tables ≡ some (FriendshipStatus.accepted, 1)
unfolding run perform standing send_friend_request accept_friend_request satisfies_constraints known
    get_friendship get_friendship_status friendship_status_between create_friendship
    update_friendship_status ensure_user_order insert_or_update update_rows
became_friends = refl

friends_have_agreed_example :
    (s : ℕ) × (asked calls 1 3 s ≡ true) × (agreed calls 1 3 1 ≡ true) × (s ≢ 1)
friends_have_agreed_example =
    friends_have_agreed plain_clients calls four_users 1 3 1 refl became_friends

counts-HasSize_example :
    (c : UserRelationsCounts) × ((count_user_relations 3 one_request).0 ≡ ok c)
    × HasSize (ids_of FriendshipCountType.count_accepted 3 one_request) c.accepted
    × HasSize (ids_of FriendshipCountType.count_pending 3 one_request) c.pending
    × HasSize (ids_of FriendshipCountType.count_sent 3 one_request) c.sent
    × HasSize (ids_of FriendshipCountType.count_blocked 3 one_request) c.blocked
    × HasSize
        (ids_of FriendshipCountType.count_not_friends 3 one_request)
        (c.accepted + c.pending + c.sent + c.blocked)
counts-HasSize_example = counts-HasSize one_request calm-IsCalm 3 one_request-IsValid

abbrev code_and_text : GrpcStatus
code_and_text = record {
  RpcError = Code × String;
  error = λ c m. (c, m);
  from_error = λ r. some r;
  from_error-error = λ c m. refl;
}

answers-http_status_example :
    (http_status
        (call code_and_text
          (serve_accept_friend_request code_and_text plain_clients 2 3)
          one_request).0
      ≡ answer_status 2 (standing 2 3 one_request.tables))
    × (http_status
          (call code_and_text
            (serve_reject_friend_request code_and_text plain_clients 2 3)
            one_request).0
        ≡ answer_status 2 (standing 2 3 one_request.tables))
    × (http_status
          (call code_and_text (serve_remove_friend code_and_text plain_clients 2 3) one_request).0
        ≡ remove_status (standing 2 3 one_request.tables))
answers-http_status_example =
    answers-http_status code_and_text plain_clients 2 3 one_request calm-IsCalm one_request-IsValid

send-http_status_example :
    http_status
      (call code_and_text (serve_send_friend_request code_and_text plain_clients 3 1) one_request).0
    ≡ send_status (standing 3 1 one_request.tables)
send-http_status_example =
    send-http_status code_and_text plain_clients 3 1 one_request calm-IsCalm (omega arith) refl
      known_user.0 known_user.1
