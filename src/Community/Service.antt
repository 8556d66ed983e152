-- ===== src/Community/Service.antt =====
-- `CommunityService` of internal/service/community.go, over its store and the directory of uploads.
-- Logging is left out, and so are the calls that keep the search index, whose errors are only
-- logged.
use slps_team.Prelude.{
  ℕ, String, Bool, true, false, not, ◌==◌, List, [], ◌∷◌, Option, none, some, if◌then◌else◌,
}
use slps_team.Prelude.Int.{ℤ}
use slps_team.Errors.{Error, Sentinel, errors_is}
use slps_team.Flow.{
  Result, ok, Action, pure, lift, on_error, or_return, return_if, ◌>>=◌, ◌>>◌, ignoring,
}
use slps_team.Paginate.{PaginateQueryParams, validate_pagination_params}
use slps_team.Uploads.{File, Names, upload_file}
use slps_team.Backend.{World as BackendWorld, on_db, on_disk, discard, or_clean}
use slps_team.Community.{
  CommunityRow, Community, ShortCommunity, CommunityForMyCommunity, CommunityForView,
  CommunitySubscriber, CommunityType, CommunityRequest, CommunityTables,
}
use slps_team.Community.Store.{
  create_community_row, update_community_row, delete_community_row, get_community_by_id,
  get_joined_communities, get_not_joined_communities, get_joined_communities_by_id,
  get_subscribed_ids, get_created_communities, get_subscriber_ids, subscribe_row, unsubscribe_row,
  is_subscribed_row, get_communities_by_ids,
}

-- What the profile service says of a user.
pub record ShortProfile : Type 0 where
  pub full_name : String
  pub avatar_path : Option String

-- govalidator on the tags of the request, the clients for users and profiles, and the search index.
pub record Clients : Type 0 where
  pub validate_struct : CommunityRequest → Bool
  pub is_user_exists : ℕ → Result Bool
  pub short_profile_map : List ℕ → Result (ℕ → Option ShortProfile)
  pub search_community_ids : String → List ℕ → Bool → ℤ → ℤ → Result (List ℕ)

abbrev pub World : Type 0
World = BackendWorld CommunityTables

abbrev pub Call : Type 0 → Type 0
Call A = Action World A

-- `if errors.Is(err, domain.ErrNotFound) { … ErrNotFound } … ErrDB`
abbrev pub missing_or_db : Error → Sentinel
missing_or_db e = if errors_is e Sentinel.not_found then Sentinel.not_found else Sentinel.db

unfoldable pub existing_community : ℕ → Call Community
existing_community id = on_error missing_or_db (on_db (get_community_by_id id))

-- What becomes of a picture of a community: the path to store, the new file if there is one, and the
-- old one that it replaces.
pub record Picture : Type 0 where
  pub path : Option String
  pub uploaded : Option String
  pub replaced : Option String

abbrev pub new_picture : Option String → String → Picture
new_picture old path = record { path = some path; uploaded = some path; replaced = old }

abbrev pub same_picture : Option String → Picture
same_picture old = record { path = old; uploaded = none; replaced = none }

module _ (names : Names) where
  -- The file is the first of the slice, which is nil or not empty.
  unfoldable pub take_picture : Option String → Option File → (World → World) → Call Picture
  take_picture old none clean = pure (same_picture old)
  take_picture old (some file) clean = do
    path ← or_clean clean Sentinel.service (on_disk (upload_file names file))
    pure (new_picture old path)

  module _ (c : Clients) where
    unfoldable pub create_community :
        ℕ → CommunityRequest → Option File → Option File → Call CommunityRow
    create_community user_id req avatar cover = do
      return_if (not (c.validate_struct req)) Sentinel.invalid_input
      a ← take_picture none avatar (λ w. w)
      b ← take_picture none cover (discard a.uploaded)
      row ←
          or_clean (λ w. discard b.uploaded (discard a.uploaded w)) Sentinel.db
            (on_db (create_community_row req.name req.description user_id a.path b.path))
      (λ w. (ok row, ignoring (on_db (subscribe_row row.id user_id)) w))

    unfoldable pub update_community :
        ℕ → ℕ → CommunityRequest → Option File → Option File → Call (Unit {0})
    update_community community_id user_id req avatar cover = do
      return_if (not (c.validate_struct req)) Sentinel.invalid_input
      existing ← existing_community community_id
      return_if (not (existing.creator_id == user_id)) Sentinel.access_denied
      a ← take_picture existing.avatar_path avatar (λ w. w)
      b ← take_picture existing.cover_path cover (discard a.uploaded)
      or_clean (λ w. discard b.uploaded (discard a.uploaded w)) Sentinel.db
          (on_db (update_community_row community_id user_id req.name req.description a.path b.path))
      (λ w. (ok tt, discard b.replaced (discard a.replaced w)))

    abbrev pub user_must_exist : ℕ → Call (Unit {0})
    user_must_exist user_id = do
      exists ← or_return Sentinel.db (lift (c.is_user_exists user_id))
      return_if (not exists) Sentinel.not_exist

    unfoldable pub subscribe : ℕ → ℕ → Call (Unit {0})
    subscribe community_id user_id = do
      _ ← existing_community community_id
      user_must_exist user_id
      or_return Sentinel.db (on_db (subscribe_row community_id user_id))

    unfoldable pub get_user_communities_by_id : ℕ → PaginateQueryParams → Call (List ShortCommunity)
    get_user_communities_by_id target_user_id params =
        let (offset, limit) = validate_pagination_params params in
        (do
          user_must_exist target_user_id
          or_return Sentinel.db (on_db (get_joined_communities_by_id target_user_id limit offset)))

    unfoldable pub get_user_subscribed_community_ids : ℕ → Call (List ℕ)
    get_user_subscribed_community_ids target_user_id = do
      user_must_exist target_user_id
      or_return Sentinel.db (on_db (get_subscribed_ids target_user_id))

    -- The loop over the ids: those without a profile are left out.
    abbrev pub subscribers_with : (ℕ → Option ShortProfile) → List ℕ → List CommunitySubscriber
    subscribers_with profiles [] = []
    subscribers_with profiles (id ∷ ids) = elim (profiles id) [
      | none ↦ subscribers_with profiles ids
      | some profile ↦
          record { user_id = id; full_name = profile.full_name; avatar_path = profile.avatar_path }
          ∷ subscribers_with profiles ids
    ]

    abbrev pub subscribers_of : List ℕ → Call (List CommunitySubscriber)
    subscribers_of [] = pure []
    subscribers_of (id ∷ ids) = do
      profiles ← or_return Sentinel.service (lift (c.short_profile_map (id ∷ ids)))
      pure (subscribers_with profiles (id ∷ ids))

    unfoldable pub get_community_subscribers :
        ℕ → PaginateQueryParams → Call (List CommunitySubscriber)
    get_community_subscribers community_id params =
        let (offset, limit) = validate_pagination_params params in
        (do
          _ ← existing_community community_id
          ids ← or_return Sentinel.db (on_db (get_subscriber_ids community_id limit offset))
          subscribers_of ids)

    -- `isTerms`: only "recommended" searches outside the ids.
    abbrev pub within_ids : CommunityType → Bool
    within_ids CommunityType.recommended = false
    within_ids _ = true

    unfoldable pub search_short_communities :
        ℕ → PaginateQueryParams → String → CommunityType → Call (List ShortCommunity)
    search_short_communities user_id params name ty =
        let (offset, limit) = validate_pagination_params params in
        (do
          filter_ids ← or_return Sentinel.db (on_db (get_subscribed_ids user_id))
          found ←
              or_return Sentinel.db
                (lift (c.search_community_ids name filter_ids (within_ids ty) limit offset))
          or_return Sentinel.db (on_db (get_communities_by_ids found)))

unfoldable pub delete_community : ℕ → ℕ → Call (Unit {0})
delete_community community_id user_id = do
  existing ← existing_community community_id
  return_if (not (existing.creator_id == user_id)) Sentinel.access_denied
  or_return Sentinel.db (on_db (delete_community_row community_id user_id))
  (λ w. (ok tt, discard existing.cover_path (discard existing.avatar_path w)))

unfoldable pub get_community : ℕ → ℕ → Call CommunityForView
get_community user_id community_id = do
  community ← existing_community community_id
  is_subscribed ← or_return Sentinel.db (on_db (is_subscribed_row community_id user_id))
  pure (record { community = community; is_subscribed = is_subscribed })

unfoldable pub get_user_communities : ℕ → PaginateQueryParams → Call (List ShortCommunity)
get_user_communities user_id params =
    let (offset, limit) = validate_pagination_params params in
    or_return Sentinel.db (on_db (get_joined_communities user_id limit offset))

unfoldable pub get_other_communities : ℕ → PaginateQueryParams → Call (List ShortCommunity)
get_other_communities user_id params =
    let (offset, limit) = validate_pagination_params params in
    or_return Sentinel.db (on_db (get_not_joined_communities user_id limit offset))

unfoldable pub get_my_communities : ℕ → PaginateQueryParams → Call (List CommunityForMyCommunity)
get_my_communities user_id params =
    let (offset, limit) = validate_pagination_params params in
    or_return Sentinel.db (on_db (get_created_communities user_id limit offset))

unfoldable pub unsubscribe : ℕ → ℕ → Call (Unit {0})
unsubscribe community_id user_id =
    on_error missing_or_db (on_db (unsubscribe_row community_id user_id))
