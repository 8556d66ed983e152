-- ===== src/Friend/Service.antt =====
-- `FriendService` of internal/service/friend.go. Logging is left out; the mappers of
-- shared/mapper/generated rename fields only, so profiles are taken as the client returns them.
use slps_team.Prelude.{
  ℕ, String, Bool, true, false, not, ◌||◌, ◌==◌, List, [], ◌∷◌, ◌++◌, if◌then◌else◌,
}
use slps_team.Prelude.Int.{ℤ}
use slps_team.Errors.{Error, Sentinel, sentinel, errors_is}
use slps_team.Flow.{Result, ok, err, pure, fail, lift, on_error, or_return, return_if, ◌>>=◌, ◌>>◌}
use slps_team.Sql.{Db}
use slps_team.Paginate.{PaginateQueryParams, validate_pagination_params}
use slps_team.Friend.{
  FriendshipStatus, is_status, FriendshipCountType, UserRelationsCounts, Friendship, Tables,
}
use slps_team.Friend.Store.{
  Method, create_friendship, get_friendship, update_friendship_status, delete_friendship,
  get_user_friends, get_all_users, get_friendship_requests, get_sent_requests,
  get_friendship_status, count_user_relations, get_user_ids_by_friend_type,
}

-- The other services: the gRPC clients for users and profiles, and the search index.
pub record Clients : Type 1 where
  pub ShortProfile : Type 0
  pub is_user_exists : ℕ → Result Bool
  pub short_profiles : List ℕ → Result (List ShortProfile)
  pub other_short_profiles : List ℕ → ℤ → ℤ → Result (List ShortProfile)
  pub search_user_ids : String → List ℕ → Bool → ℤ → ℤ → Result (List ℕ)

-- `if errors.Is(err, domain.ErrNotFound) { … ErrNotFound } … ErrDB`
abbrev pub not_found_or_db : Error → Sentinel
not_found_or_db e = if errors_is e Sentinel.not_found then Sentinel.not_found else Sentinel.db

-- `if err != nil && !errors.Is(err, domain.ErrNotFound) { return domain.ErrDB }`
abbrev pub or_unset : Result FriendshipStatus × Db Tables → Result FriendshipStatus × Db Tables
or_unset (ok st, db) = (ok st, db)
or_unset (err e, db) = (
  if errors_is e Sentinel.not_found then ok FriendshipStatus.unset else err (sentinel Sentinel.db),
  db,
)

-- The switch over the current status.
abbrev pub refuse_by_status : ℕ → ℕ → FriendshipStatus → Method (Unit {0})
refuse_by_status a b FriendshipStatus.accepted = fail Sentinel.already_exists
refuse_by_status a b FriendshipStatus.pending = do
  friendship ← or_return Sentinel.db (get_friendship a b)
  if friendship.first_user_id == a
      then fail Sentinel.already_exists
      else fail Sentinel.already_exists
refuse_by_status a b FriendshipStatus.blocked = fail Sentinel.access_denied
refuse_by_status a b _ = pure tt

-- `friendship.Status != domain.FriendshipPending || friendship.ActionUserID == userID`
abbrev pub not_receiver : ℕ → Friendship → Bool
not_receiver u f = not (is_status f.status FriendshipStatus.pending) || f.action_user_id == u

-- `AcceptFriendRequest` and `RejectFriendRequest` have one body but for the new status.
abbrev pub answer_request : FriendshipStatus → ℕ → ℕ → Method (Unit {0})
answer_request answer u friend = do
  friendship ← on_error not_found_or_db (get_friendship u friend)
  return_if (not_receiver u friendship) Sentinel.not_found
  or_return Sentinel.db (update_friendship_status u friend answer)

unfoldable pub accept_friend_request : ℕ → ℕ → Method (Unit {0})
accept_friend_request = answer_request FriendshipStatus.accepted

unfoldable pub reject_friend_request : ℕ → ℕ → Method (Unit {0})
reject_friend_request = answer_request FriendshipStatus.rejected

unfoldable pub remove_friend : ℕ → ℕ → Method (Unit {0})
remove_friend u friend = or_return Sentinel.db (delete_friendship u friend)

unfoldable pub friendship_status_between : ℕ → ℕ → Method FriendshipStatus
friendship_status_between u friend db = or_unset (get_friendship_status u friend db)

module _ (c : Clients) where
  abbrev pub user_must_exist : ℕ → Method (Unit {0})
  user_must_exist u = do
    exists ← or_return Sentinel.db (lift (c.is_user_exists u))
    return_if (not exists) Sentinel.not_exist

  unfoldable pub send_friend_request : ℕ → ℕ → Method (Unit {0})
  send_friend_request action_user_id target_user_id = do
    return_if (action_user_id == target_user_id) Sentinel.invalid_input
    user_must_exist target_user_id
    current ← friendship_status_between action_user_id target_user_id
    refuse_by_status action_user_id target_user_id current
    or_return Sentinel.db (create_friendship action_user_id target_user_id)

  abbrev profiles_of : List ℕ → Method (List c.ShortProfile)
  profiles_of ids = or_return Sentinel.db (lift (c.short_profiles ids))

  unfoldable pub get_friends : ℕ → PaginateQueryParams → Method (List c.ShortProfile)
  get_friends u params =
      let (offset, limit) = validate_pagination_params params in
      (do ids ← or_return Sentinel.db (get_user_friends u limit offset); profiles_of ids)

  unfoldable pub get_all_other_users : ℕ → PaginateQueryParams → Method (List c.ShortProfile)
  get_all_other_users u params =
      let (offset, limit) = validate_pagination_params params in
      (do
        ids ← or_return Sentinel.db (get_all_users u)
        or_return Sentinel.db (lift (c.other_short_profiles (ids ++ u ∷ []) limit offset)))

  unfoldable pub get_friend_requests : ℕ → PaginateQueryParams → Method (List c.ShortProfile)
  get_friend_requests u params =
      let (offset, limit) = validate_pagination_params params in
      (do ids ← or_return Sentinel.db (get_friendship_requests u limit offset); profiles_of ids)

  unfoldable pub get_sent_friend_requests : ℕ → PaginateQueryParams → Method (List c.ShortProfile)
  get_sent_friend_requests u params =
      let (offset, limit) = validate_pagination_params params in
      (do ids ← or_return Sentinel.db (get_sent_requests u limit offset); profiles_of ids)

  unfoldable pub count_relations : ℕ → Method UserRelationsCounts
  count_relations u = do user_must_exist u; or_return Sentinel.db (count_user_relations u)

  -- `isTerms`: only "notFriends" searches outside the ids.
  abbrev is_terms : FriendshipCountType → Bool
  is_terms FriendshipCountType.count_not_friends = false
  is_terms _ = true

  unfoldable pub search_short_profiles :
      ℕ → PaginateQueryParams → String → FriendshipCountType → Method (List c.ShortProfile)
  search_short_profiles u params full_name ty =
      let (offset, limit) = validate_pagination_params params in
      (do
        filter_ids ← or_return Sentinel.db (get_user_ids_by_friend_type u ty)
        found ←
            or_return Sentinel.db
              (lift (c.search_user_ids full_name filter_ids (is_terms ty) limit offset))
        profiles_of found)

-- `isValidCountType`
unfoldable pub is_valid_count_type : FriendshipCountType → Bool
is_valid_count_type FriendshipCountType.count_not_friends = false
is_valid_count_type FriendshipCountType.other_type = false
is_valid_count_type _ = true
