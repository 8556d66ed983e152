-- ===== src/Post/Service.antt =====
-- `PostService` of internal/service/post.go, over its store, the store of communities and the
-- directory of uploads. Logging is left out.
use slps_team.Prelude.{
  ℕ, String, Bool, true, false, not, refl, ◌==◌, List, [], ◌∷◌, ◌++◌, map, length, drop, Option,
  none, some, if◌then◌else◌,
}
use slps_team.Errors.{Error, Sentinel, errors_is}
use slps_team.Flow.{
  Result, ok, Action, pure, lift, on_error, or_return, return_if, ◌>>=◌, ◌>>◌, ignoring,
}
use slps_team.Paginate.{PaginateQueryParams, validate_pagination_params}
use slps_team.Sql.Focus.{Part, on_part}
use slps_team.Uploads.{File, Names, upload_files, delete_files}
use slps_team.Backend.{World as BackendWorld, on_db, on_disk, or_clean}
use slps_team.Community.{Community, CommunityTables}
use slps_team.Community.Store.{get_community_by_id}
use slps_team.Community.Service.{missing_or_db}
use slps_team.Comment.Service.{ShortProfile}
use slps_team.Post.{Post, PostDb, PostView, PostTables}
use slps_team.Post.Store.{
  posts_paginated_list, get_post_by_id, get_community_posts_rows, get_posts_by_user,
  create_post_row, update_post_row, delete_post_row, update_like_row,
}

-- govalidator on the tags of the two requests, and the clients for users and profiles.
pub record Clients : Type 0 where
  pub valid_text : String → Bool
  pub is_user_exists : ℕ → Result Bool
  pub short_profile_map : List ℕ → Result (ℕ → Option ShortProfile)

abbrev pub World : Type 0
World = BackendWorld PostTables

abbrev pub Call : Type 0 → Type 0
Call A = Action World A

abbrev pub communities : Part PostTables CommunityTables
communities = record {
  get = λ t. t.community;
  put = λ c t. record t { community = c };
  put_same = λ t. refl;
}

-- `if errors.Is(err, domain.ErrPostNotFound) { … ErrPostNotFound } … ErrDB`
abbrev pub no_post_or_db : Error → Sentinel
no_post_or_db e =
    if errors_is e Sentinel.post_not_found then Sentinel.post_not_found else Sentinel.db

unfoldable pub existing_post : ℕ → ℕ → Call PostDb
existing_post user_id post_id = on_error no_post_or_db (on_db (get_post_by_id user_id post_id))

unfoldable pub stored_community : ℕ → Call Community
stored_community id = on_db (on_part communities (get_community_by_id id))

abbrev pub author_ids : List PostDb → List ℕ
author_ids ps = map (λ (p : PostDb). p.author_id) ps

abbrev pub is_some : Option ℕ → Bool
is_some none = false
is_some (some c) = true

abbrev pub view_with : Option ShortProfile → PostDb → PostView
view_with none p = record {
  stored = p;
  author_name = "Пользователь";
  author_avatar = none;
  is_community_post = is_some p.community_id;
}
view_with (some profile) p = record {
  stored = p;
  author_name = profile.full_name;
  author_avatar = profile.avatar_path;
  is_community_post = is_some p.community_id;
}

-- `DeleteFiles(convertToPointerSlice(…))`, its error dropped or only logged.
unfoldable pub delete_paths : List String → World → World
delete_paths paths w = record w {
  disk = ignoring (delete_files (map (λ path. some path) paths)) w.disk;
}

-- What becomes of the files of one kind in a change of a post: the paths to store, and the old ones
-- that they replace.
pub record Change : Type 0 where
  pub paths : List String
  pub replaced : List String

module _ (names : Names) where
  -- The upload of one kind of files, if there are any.
  unfoldable pub upload_any : List File → (World → World) → Call (List String)
  upload_any [] clean = pure []
  upload_any (f ∷ fs) clean =
      or_clean clean Sentinel.service (on_disk (upload_files names (f ∷ fs)))

  unfoldable pub change_files : List String → List File → (World → World) → Call Change
  change_files old [] clean = pure (record { paths = old; replaced = [] })
  change_files old (f ∷ fs) clean = do
    paths ← or_clean clean Sentinel.service (on_disk (upload_files names (f ∷ fs)))
    pure (record { paths = paths; replaced = old })

-- The rights to post in a community: only its creator has them.
unfoldable pub may_post_in : Option ℕ → ℕ → Call (Unit {0})
may_post_in none user_id = pure tt
may_post_in (some id) user_id = do
  community ← or_return Sentinel.not_found (stored_community id)
  return_if (not (community.creator_id == user_id)) Sentinel.access_denied

module _ (c : Clients) where
  -- `enrichPostWithProfile`
  unfoldable pub enrich_post : PostDb → Call PostView
  enrich_post p = do
    profiles ← or_return Sentinel.service (lift (c.short_profile_map (p.author_id ∷ [])))
    pure (view_with (profiles p.author_id) p)

  -- `enrichPostsWithProfiles`: nothing is asked for no posts.
  unfoldable pub enrich_posts : List PostDb → Call (List PostView)
  enrich_posts [] = pure []
  enrich_posts (p ∷ ps) = do
    profiles ← or_return Sentinel.service (lift (c.short_profile_map (author_ids (p ∷ ps))))
    pure (map (λ (q : PostDb). view_with (profiles q.author_id) q) (p ∷ ps))

  unfoldable pub posts_paginate : ℕ → PaginateQueryParams → Call (List PostView)
  posts_paginate user_id params =
      let (offset, limit) = validate_pagination_params params in
      (do
        posts ← or_return Sentinel.db (on_db (posts_paginated_list user_id limit offset))
        enrich_posts posts)

  unfoldable pub get_post : ℕ → ℕ → Call PostView
  get_post user_id post_id = existing_post user_id post_id >>= enrich_post

  unfoldable pub get_user_posts : ℕ → ℕ → PaginateQueryParams → Call (List PostView)
  get_user_posts self_user_id user_id params =
      let (offset, limit) = validate_pagination_params params in
      (do
        exists ← or_return Sentinel.db (lift (c.is_user_exists user_id))
        return_if (not exists) Sentinel.not_exist
        posts ← or_return Sentinel.db (on_db (get_posts_by_user self_user_id user_id limit offset))
        enrich_posts posts)

  unfoldable pub get_community_posts : ℕ → ℕ → PaginateQueryParams → Call (List PostView)
  get_community_posts user_id community_id params =
      let (offset, limit) = validate_pagination_params params in
      (do
        _ ← on_error missing_or_db (stored_community community_id)
        posts ←
            or_return Sentinel.db
              (on_db (get_community_posts_rows user_id community_id limit offset))
        enrich_posts posts)

  module _ (names : Names) where
    unfoldable pub create_post : ℕ → String → Option ℕ → List File → List File → Call Post
    create_post user_id text community_id attachment_files photo_files = do
      return_if (not (c.valid_text text)) Sentinel.invalid_input
      attachments ← upload_any names attachment_files (λ w. w)
      photos ← upload_any names photo_files (delete_paths attachments)
      may_post_in community_id user_id
      row ←
          or_clean (λ w. delete_paths photos (delete_paths attachments w)) Sentinel.db
            (on_db (create_post_row user_id text community_id attachments photos))
      pure (record { row = row; attachments = attachments; photos = photos })

    -- On an error, of the new paths those from the number of the old ones on are deleted.
    unfoldable pub update_post : ℕ → ℕ → String → List File → List File → Call (Unit {0})
    update_post post_id user_id text attachment_files photo_files = do
      return_if (not (c.valid_text text)) Sentinel.invalid_input
      existing ← existing_post user_id post_id
      return_if (not (existing.author_id == user_id)) Sentinel.access_denied
      a ← change_files names existing.attachments attachment_files (λ w. w)
      let new_attachments : List String = drop (length existing.attachments) a.paths
      p ← change_files names existing.photos photo_files (delete_paths new_attachments)
      let new_photos : List String = drop (length existing.photos) p.paths
      or_clean (λ w. delete_paths new_photos (delete_paths new_attachments w)) Sentinel.db
          (on_db (update_post_row post_id user_id text a.paths p.paths))
      (λ w. (ok tt, delete_paths p.replaced (delete_paths a.replaced w)))

unfoldable pub delete_post : ℕ → ℕ → Call (Unit {0})
delete_post post_id user_id = do
  existing ← existing_post user_id post_id
  return_if (not (existing.author_id == user_id)) Sentinel.access_denied
  or_return Sentinel.db (on_db (delete_post_row post_id user_id))
  (λ w. (ok tt, delete_paths (existing.attachments ++ existing.photos) w))

unfoldable pub update_like : ℕ → ℕ → Call (Unit {0})
update_like user_id post_id = or_return Sentinel.db (on_db (update_like_row user_id post_id))
