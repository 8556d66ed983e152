-- ===== src/Post/Store.antt =====
-- `DBPostStore` of internal/repository/db/post.go, method by method. Logging is left out.
use Prim.Native.String.{len}
use slps_team.Prelude.{
  ℕ, String, ◌&&◌, ◌||◌, ◌==◌, ltb, List, [], ◌∷◌, map, keep, Option, none, some, if◌then◌else◌,
}
use slps_team.Prelude.Int.{ℤ}
use slps_team.Prelude.Sort.{sort}
use slps_team.Errors.{Error, Sentinel, foreign}
use slps_team.Flow.{Action, pure, raise, fail, return_if, ◌>>=◌, ◌>>◌}
use slps_team.Paginate.{limit_offset}
use slps_team.Sql.{
  Db, exec, query, result_of, unchecked_rows, result_breaks, wrap_error, begin, commit_tx,
  in_transaction, driver_error,
}
use slps_team.Chat.Text.{is_blank}
use slps_team.Post.{PostRow, PostDb, PostTables}
use slps_team.Post.Table.{
  Media, media_rows, insert_post, insert_media, delete_media, update_posts, delete_posts,
  toggle_likes, paths_of, joined, joined_post, select_post, shown_to, is_personal, is_in, newer,
}

abbrev pub Method : Type 0 → Type 0
Method A = Action (Db PostTables) A

-- A rollback does not bring back the identity column.
abbrev pub undone : PostTables → PostTables → PostTables
undone before t = record before { next_id = t.next_id }

abbrev pub query_failure : Media → String
query_failure Media.attachment = "failed to query attachments"
query_failure Media.photo = "failed to query post photos"

abbrev pub save_failure : Media → String
save_failure Media.attachment = "failed to save attachment"
save_failure Media.photo = "failed to save photo"

abbrev pub delete_failure : Media → String
delete_failure Media.attachment = "failed to delete old attachments"
delete_failure Media.photo = "failed to delete old photos"

abbrev pub empty_path : Media → Error
empty_path Media.attachment = foreign "attachment path cannot be empty"
empty_path Media.photo = foreign "photo path cannot be empty"

abbrev pub long_path : Media → Error
long_path Media.attachment = foreign "attachment path length must be between 1 and 512 characters"
long_path Media.photo = foreign "photo path length must be between 1 and 512 characters"

-- `getPostAttachments` and `getPostPhotos`: no `rows.Err`.
unfoldable pub get_media : Media → ℕ → Method (List String)
get_media m post_id = do
  paths ← wrap_error (query_failure m) (query λ t. some (paths_of post_id (media_rows m t)))
  unchecked_rows paths

-- `getPostMedia`, and what is done with the two lists.
unfoldable pub with_media : PostDb → Method PostDb
with_media p = do
  attachments ← get_media Media.attachment p.id
  photos ← get_media Media.photo p.id
  pure (record p { post = record (p.post) { attachments = attachments; photos = photos } })

-- The loop over the rows.
unfoldable pub load_posts : List PostDb → Method (List PostDb)
load_posts [] = pure []
load_posts (p ∷ ps) = do post ← with_media p; rest ← load_posts ps; pure (post ∷ rest)

unfoldable pub posts_paginated_list : ℕ → ℤ → ℤ → Method (List PostDb)
posts_paginated_list user_id limit offset = do
  rows ← wrap_error "failed to query posts" (
      query λ t. limit_offset limit offset (
        map (joined user_id t)
          (sort newer (keep (λ p. shown_to user_id t p.community_id) t.posts))))
  broken ← result_breaks
  read ← unchecked_rows rows
  posts ← load_posts read
  if broken then raise driver_error else pure posts

abbrev pub post_or_not_found : Option PostDb → Method PostDb
post_or_not_found none = fail Sentinel.post_not_found
post_or_not_found (some p) = pure p

unfoldable pub get_post_by_id : ℕ → ℕ → Method PostDb
get_post_by_id user_id id = do
  found ←
      wrap_error "failed to get post"
        (query λ t. some (joined_post user_id t (select_post id t.posts)))
  post ← post_or_not_found found
  with_media post

-- No `rows.Err` here and in the next.
unfoldable pub get_community_posts_rows : ℕ → ℕ → ℤ → ℤ → Method (List PostDb)
get_community_posts_rows user_id community_id limit offset = do
  rows ← wrap_error "failed to query community posts" (
      query λ t. limit_offset limit offset (
        map (joined user_id t)
          (sort newer (keep (λ p. is_in community_id p.community_id) t.posts))))
  read ← unchecked_rows rows
  load_posts read

unfoldable pub get_posts_by_user : ℕ → ℕ → ℤ → ℤ → Method (List PostDb)
get_posts_by_user self_user_id user_id limit offset = do
  rows ← wrap_error "failed to query user posts" (
      query λ t. limit_offset limit offset (
        map (joined self_user_id t)
          (sort newer (keep (λ p. p.author_id == user_id && is_personal p.community_id) t.posts))))
  read ← unchecked_rows rows
  load_posts read

-- `savePostAttachmentsTx` and `savePostPhotosTx`, in a transaction that began at `now`; lengths are
-- in bytes.
unfoldable pub save_media : Media → ℕ → ℕ → List String → Method (Unit {0})
save_media m now post_id [] = pure tt
save_media m now post_id (path ∷ paths) =
    if is_blank path
    then raise (empty_path m)
    else if ltb (len path) 1 || ltb 512 (len path)
    then raise (long_path m)
    else (do
      _ ← wrap_error (save_failure m) (exec λ _ t. insert_media m post_id path now t)
      save_media m now post_id paths)

-- `updatePostAttachmentsTx` and `updatePostPhotosTx`.
unfoldable pub replace_media : Media → ℕ → ℕ → List String → Method (Unit {0})
replace_media m now post_id paths = do
  _ ← wrap_error (delete_failure m) (exec λ _ t. delete_media m post_id t)
  save_media m now post_id paths

-- `CreatePost` sets the id and the times of its argument, here its result. An error leaves nothing of
-- the transaction, here and below: where no rollback is called, the end of the request's context
-- rolls it back.
unfoldable pub create_post_row : ℕ → String → Option ℕ → List String → List String → Method PostRow
create_post_row author_id text community_id attachments photos = in_transaction undone (do
  now ← wrap_error "failed to begin transaction" begin
  row ←
      wrap_error "failed to create post" (exec λ _ t. insert_post author_id text community_id now t)
  save_media Media.attachment now row.id attachments
  save_media Media.photo now row.id photos
  wrap_error "failed to commit transaction" commit_tx
  pure row)

unfoldable pub update_post_row : ℕ → ℕ → String → List String → List String → Method (Unit {0})
update_post_row id author_id text attachments photos = in_transaction undone (do
  now ← wrap_error "failed to begin transaction" begin
  count ← wrap_error "failed to update post" (exec λ _ t. update_posts id author_id text now t)
  return_if (count == 0) Sentinel.post_not_found
  replace_media Media.attachment now id attachments
  replace_media Media.photo now id photos
  wrap_error "failed to commit transaction" commit_tx)

unfoldable pub delete_post_row : ℕ → ℕ → Method (Unit {0})
delete_post_row id author_id = do
  return_if (id == 0 || author_id == 0) Sentinel.invalid_input
  in_transaction undone (do
    _ ← wrap_error "failed to begin transaction" begin
    result ← wrap_error "failed to delete post" (exec λ _ t. delete_posts id author_id t)
    count ← wrap_error "failed to get rows affected" (result_of result)
    return_if (count == 0) Sentinel.post_not_found
    wrap_error "failed to commit transaction" commit_tx)

unfoldable pub update_like_row : ℕ → ℕ → Method (Unit {0})
update_like_row user_id post_id = do
  _ ← wrap_error "exec failed" (exec λ now t. toggle_likes post_id user_id now t)
  pure tt
