-- ===== src/Friend/Store.antt =====
-- `DBFriendStore` of internal/repository/db/friend.go, method by method. Logging is left out.
use slps_team.Prelude.{
  ℕ, ◌+◌, ltb, leb, Bool, true, not, ◌&&◌, ◌==◌, any, tally, keep, List, map, Option, none, some,
  if◌then◌else◌,
}
use slps_team.Prelude.Int.{ℤ}
use slps_team.Prelude.Sort.{sort}
use slps_team.Errors.{Sentinel, foreign, errors_is}
use slps_team.Flow.{Result, ok, err, Action, pure, raise, fail, return_if, ◌>>=◌}
use slps_team.Paginate.{limit_offset}
use slps_team.Sql.{Db, exec, query, result_of, wrap_error}
use slps_team.Friend.{
  FriendshipStatus, is_status, FriendshipCountType, UserRelationsCounts, Row, Friendship, Tables,
}
use slps_team.Friend.Table.{
  has_key, involves, is_accepted, is_blocked, is_incoming, is_sent, select_row, insert_or_update,
  update_rows, delete_rows, related, newest_first, other_user,
}

-- A method of the store.
abbrev pub Method : Type 0 → Type 0
Method A = Action (Db Tables) A

unfoldable pub ensure_user_order : ℕ → ℕ → ℕ × ℕ
ensure_user_order a b = if ltb a b then (a, b) else (b, a)

unfoldable pub create_friendship : ℕ → ℕ → Method (Unit {0})
create_friendship action_user_id target_user_id =
    let (f, s) = ensure_user_order action_user_id target_user_id in
    (do
      _ ←
          wrap_error "failed to create friendship"
            (exec λ now t. insert_or_update f s action_user_id FriendshipStatus.pending now t)
      pure tt)

-- `sql.ErrNoRows` is the error of a query with no row.
abbrev pub row_or_not_found : Option Row → Method Friendship
row_or_not_found none = fail Sentinel.friendship_not_found
row_or_not_found (some r) = pure (record { id = 0; row = r })

unfoldable pub get_friendship : ℕ → ℕ → Method Friendship
get_friendship a b =
    let (f, s) = ensure_user_order a b in
    (do
      found ← wrap_error "failed to get friendship" (query λ t. some (select_row f s t.rows))
      row_or_not_found found)

abbrev pub affected : ℕ → Method (Unit {0})
affected count = return_if (count == 0) Sentinel.friendship_not_found

unfoldable pub update_friendship_status : ℕ → ℕ → FriendshipStatus → Method (Unit {0})
update_friendship_status action_user_id target_user_id st =
    let (f, s) = ensure_user_order action_user_id target_user_id in
    (do
      result ←
          wrap_error "Failed to update friendship status"
            (exec λ now t. update_rows f s action_user_id st now t)
      count ← wrap_error "Failed to get rows affected" (result_of result)
      affected count)

unfoldable pub delete_friendship : ℕ → ℕ → Method (Unit {0})
delete_friendship a b =
    let (f, s) = ensure_user_order a b in
    (do
      result ← wrap_error "failed to delete friendship" (exec λ now t. delete_rows f s now t)
      count ← wrap_error "failed to get rows affected" (result_of result)
      affected count)

unfoldable pub get_user_friends : ℕ → ℤ → ℤ → Method (List ℕ)
get_user_friends u limit offset = do
  ids ←
      wrap_error "failed to query user friends"
        (query λ t. limit_offset limit offset (sort leb (related u is_accepted t.rows)))
  wrap_error "failed to scan friend profile" (result_of ids)

unfoldable pub get_all_users : ℕ → Method (List ℕ)
get_all_users u = do
  ids ←
      wrap_error "failed to query all users"
        (query λ t. some (sort leb (related u (λ _. true) t.rows)))
  wrap_error "failed to scan friend profile" (result_of ids)

-- The rows are sorted by their time before `CASE` picks the other user.
abbrev pub newest_related : ℕ → (Row → Bool) → List Row → List ℕ
newest_related u test rows =
    map (other_user u) (sort newest_first (keep (λ r. involves u r && test r) rows))

unfoldable pub get_friendship_requests : ℕ → ℤ → ℤ → Method (List ℕ)
get_friendship_requests u limit offset = do
  ids ←
      wrap_error "Failed to query friendship requests"
        (query λ t. limit_offset limit offset (newest_related u (is_incoming u) t.rows))
  wrap_error "failed to scan friend profile" (result_of ids)

unfoldable pub get_sent_requests : ℕ → ℤ → ℤ → Method (List ℕ)
get_sent_requests u limit offset = do
  ids ←
      wrap_error "failed to query sent requests"
        (query λ t. limit_offset limit offset (newest_related u (is_sent u) t.rows))
  wrap_error "failed to scan friend profile" (result_of ids)

unfoldable pub are_friends : ℕ → ℕ → Method Bool
are_friends a b =
    let (f, s) = ensure_user_order a b in
    (do
      exists ←
          wrap_error "failed to check friendship"
            (query λ t. some (any (λ r. has_key f s r && is_accepted r) t.rows))
      wrap_error "failed to check friendship" (result_of exists))

-- A pair with no row has the status "" and no error; any other error is passed on.
abbrev pub status_or_unset : Result Friendship × Db Tables → Result FriendshipStatus × Db Tables
status_or_unset (ok f, db) = (ok f.status, db)
status_or_unset (err e, db) =
    (if errors_is e Sentinel.friendship_not_found then ok FriendshipStatus.unset else err e, db)

unfoldable pub get_friendship_status : ℕ → ℕ → Method FriendshipStatus
get_friendship_status a b db = status_or_unset (get_friendship a b db)

-- The six filtered counts of the query, put together as its outer SELECT does.
abbrev pub relations_of : ℕ → List Row → UserRelationsCounts
relations_of u rows =
    let count = λ (test : Row → Bool). tally test (keep (involves u) rows) in
    record {
      accepted = count is_accepted;
      pending =
          count (λ r. is_status r.status FriendshipStatus.pending && not (r.action_user_id == u))
          + count (λ r. is_status r.status FriendshipStatus.rejected && r.action_user_id == u);
      sent =
          count (λ r. is_status r.status FriendshipStatus.pending && r.action_user_id == u)
          + count
              (λ r. is_status r.status FriendshipStatus.rejected && not (r.action_user_id == u));
      blocked = count is_blocked;
    }

unfoldable pub count_user_relations : ℕ → Method UserRelationsCounts
count_user_relations u = do
  counts ← wrap_error "failed to count user relations" (query λ t. some (relations_of u t.rows))
  wrap_error "failed to count user relations" (result_of counts)

-- The `statusClause` of the type; `none` is the default branch.
abbrev pub status_clause : ℕ → FriendshipCountType → Option (Row → Bool)
status_clause u FriendshipCountType.count_not_friends = some (λ _. true)
status_clause u FriendshipCountType.count_accepted = some is_accepted
status_clause u FriendshipCountType.count_pending = some (is_incoming u)
status_clause u FriendshipCountType.count_sent = some (is_sent u)
status_clause u FriendshipCountType.count_blocked = some is_blocked
status_clause u FriendshipCountType.count_rejected = none
status_clause u FriendshipCountType.other_type = none

abbrev pub ids_by_clause : ℕ → Option (Row → Bool) → Method (List ℕ)
ids_by_clause u none = raise (foreign "unknown statusType")
ids_by_clause u (some test) = do ids ← query λ t. some (related u test t.rows); result_of ids

unfoldable pub get_user_ids_by_friend_type : ℕ → FriendshipCountType → Method (List ℕ)
get_user_ids_by_friend_type u ty = ids_by_clause u (status_clause u ty)
