-- ===== src/Community/Store.antt =====
-- `DBCommunityStore` of internal/repository/db/community.go, method by method. Logging is left out.
use slps_team.Prelude.{
  is_one_of, ℕ, String, Bool, ◌==◌, any, keep, List, [], ◌∷◌, map, Option, none, some,
}
use slps_team.Prelude.Int.{ℤ}
use slps_team.Prelude.Sort.{sort}
use slps_team.Errors.{Sentinel}
use slps_team.Flow.{Action, pure, fail, return_if, ◌>>=◌}
use slps_team.Paginate.{limit_offset}
use slps_team.Sql.{Db, exec, query, result_of, unchecked_rows, wrap_error}
use slps_team.Community.{
  CommunityRow, Community, ShortCommunity, CommunityForMyCommunity, Subscription, CommunityTables,
}
use slps_team.Community.Table.{
  insert_community, update_communities, delete_communities, insert_subscription,
  delete_subscriptions, select_community, with_count, short_of, newer, newer_subscription,
  joined_by, not_joined_by, is_subscription,
}

abbrev pub Method : Type 0 → Type 0
Method A = Action (Db CommunityTables) A

-- `CreateCommunity` sets the id and the times of its argument, here its result.
unfoldable pub create_community_row :
    String → String → ℕ → Option String → Option String → Method CommunityRow
create_community_row name description creator_id avatar_path cover_path =
    wrap_error "failed to create community"
      (exec λ now t. insert_community name description creator_id avatar_path cover_path now t)

-- `sql.ErrNoRows`, or no row affected.
abbrev pub found_some : ℕ → Method (Unit {0})
found_some count = return_if (count == 0) Sentinel.not_found

unfoldable pub update_community_row :
    ℕ → ℕ → String → String → Option String → Option String → Method (Unit {0})
update_community_row id creator_id name description avatar_path cover_path = do
  count ←
      wrap_error "failed to update community" (
        exec
          λ now t. update_communities id creator_id name description avatar_path cover_path now t)
  found_some count

unfoldable pub delete_community_row : ℕ → ℕ → Method (Unit {0})
delete_community_row id creator_id = do
  result ←
      wrap_error "failed to delete community" (exec λ now t. delete_communities id creator_id now t)
  count ← wrap_error "failed to get rows affected" (result_of result)
  found_some count

abbrev pub community_or_not_found : Option Community → Method Community
community_or_not_found none = fail Sentinel.not_found
community_or_not_found (some c) = pure c

abbrev pub community_with_count : ℕ → CommunityTables → Option Community
community_with_count id t = elim (select_community id t.communities) [
  | none ↦ none
  | some c ↦ some (with_count t c)
]

unfoldable pub get_community_by_id : ℕ → Method Community
get_community_by_id id = do
  found ← wrap_error "failed to get community" (query λ t. some (community_with_count id t))
  community_or_not_found found

unfoldable pub get_joined_communities : ℕ → ℤ → ℤ → Method (List ShortCommunity)
get_joined_communities user_id limit offset = do
  rows ←
      wrap_error "failed to query user communities"
        (query λ t. limit_offset limit offset (map (short_of t) (sort newer (joined_by user_id t))))
  unchecked_rows rows

unfoldable pub get_not_joined_communities : ℕ → ℤ → ℤ → Method (List ShortCommunity)
get_not_joined_communities user_id limit offset = do
  rows ← wrap_error "failed to query other communities" (
      query
        λ t. limit_offset limit offset (map (short_of t) (sort newer (not_joined_by user_id t))))
  unchecked_rows rows

-- The same query as `GetUserCommunities`.
unfoldable pub get_joined_communities_by_id : ℕ → ℤ → ℤ → Method (List ShortCommunity)
get_joined_communities_by_id target_user_id limit offset = do
  rows ← wrap_error "failed to query user communities by ID" (
      query
        λ t. limit_offset limit offset (map (short_of t) (sort newer (joined_by target_user_id t))))
  unchecked_rows rows

unfoldable pub get_subscribed_ids : ℕ → Method (List ℕ)
get_subscribed_ids target_user_id = do
  ids ← wrap_error "failed to query user subscribed community IDs" (
      query λ t. some (
        map (λ (s : Subscription). s.community_id)
          (sort newer_subscription (keep (λ s. s.user_id == target_user_id) t.subscriptions))))
  unchecked_rows ids

abbrev pub mine_of : CommunityRow → CommunityForMyCommunity
mine_of c = record { id = c.id; name = c.name; avatar_path = c.avatar_path }

unfoldable pub get_created_communities : ℕ → ℤ → ℤ → Method (List CommunityForMyCommunity)
get_created_communities user_id limit offset = do
  rows ← wrap_error "failed to query created communities" (
      query λ t.
        limit_offset limit offset
          (map mine_of (sort newer (keep (λ c. c.creator_id == user_id) t.communities))))
  unchecked_rows rows

unfoldable pub get_subscriber_ids : ℕ → ℤ → ℤ → Method (List ℕ)
get_subscriber_ids community_id limit offset = do
  ids ← wrap_error "failed to query community subscribers" (
      query λ t. limit_offset limit offset (
        map (λ (s : Subscription). s.user_id)
          (sort newer_subscription (keep (λ s. s.community_id == community_id) t.subscriptions))))
  unchecked_rows ids

unfoldable pub subscribe_row : ℕ → ℕ → Method (Unit {0})
subscribe_row community_id user_id = do
  _ ←
      wrap_error "failed to subscribe"
        (exec λ now t. insert_subscription community_id user_id now t)
  pure tt

unfoldable pub unsubscribe_row : ℕ → ℕ → Method (Unit {0})
unsubscribe_row community_id user_id = do
  result ←
      wrap_error "failed to unsubscribe"
        (exec λ now t. delete_subscriptions community_id user_id now t)
  count ← wrap_error "failed to get rows affected" (result_of result)
  found_some count

unfoldable pub is_subscribed_row : ℕ → ℕ → Method Bool
is_subscribed_row community_id user_id =
    wrap_error "failed to check subscription"
      (query λ t. some (any (is_subscription community_id user_id) t.subscriptions))

abbrev pub shorts_of : List ℕ → CommunityTables → List ShortCommunity
shorts_of ids t = map (short_of t) (sort newer (keep (λ c. is_one_of ids c.id) t.communities))

-- No query for no ids.
unfoldable pub get_communities_by_ids : List ℕ → Method (List ShortCommunity)
get_communities_by_ids [] = pure []
get_communities_by_ids (i ∷ is) = do
  rows ← wrap_error "failed to query communities by IDs" (query λ t. some (shorts_of (i ∷ is) t))
  wrap_error "failed to scan community" (result_of rows)
