-- ===== src/Comment/Service.antt =====
-- `CommentService` of internal/service/comment.go, over its store and the store of posts, whose tables the service
-- does not change. Logging is left out.
use slps_team.Prelude.{
  ℕ, String, Bool, not, refl, ◌==◌, List, [], ◌∷◌, map, Option, none, some, if◌then◌else◌,
}
use slps_team.Errors.{Error, Sentinel, errors_is}
use slps_team.Flow.{Result, pure, lift, on_error, or_return, return_if, ◌>>=◌, ◌>>◌}
use slps_team.Sql.Focus.{Part, on_part}
use slps_team.Post.{PostTables}
use slps_team.Post.Store.{get_post_by_id}
use slps_team.Paginate.{PaginateQueryParams, validate_pagination_params}
use slps_team.Comment.{Comment, CommentView, CommentCreateRequest, CommentTables}
use slps_team.Comment.Store.{
  Method, create_comment_row, get_comment_by_id, get_comments_by_post, update_comment_row,
  delete_comment_row, get_post_comments_count_row,
}

-- What the profile service says of a user.
pub record ShortProfile : Type 0 where
  pub full_name : String
  pub avatar_path : Option String

-- govalidator on the tags of the two requests, and the client for profiles.
pub record Clients : Type 0 where
  pub valid_creation : CommentCreateRequest → Bool
  pub valid_text : String → Bool
  pub short_profile_map : List ℕ → Result (ℕ → Option ShortProfile)

-- The tables of posts, with the comments as they are; `GetPostByID` only reads, so nothing is put back.
abbrev pub posts_part : PostTables → Part CommentTables PostTables
posts_part posts = record {
  get = λ t. record posts { comments = t.comments };
  put = λ u t. t;
  put_same = λ t. refl;
}

abbrev pub missing_or_db : Error → Sentinel
missing_or_db e = if errors_is e Sentinel.not_found then Sentinel.not_found else Sentinel.db

abbrev pub no_post_or_db : Error → Sentinel
no_post_or_db e = if errors_is e Sentinel.post_not_found then Sentinel.not_found else Sentinel.db

abbrev pub view_with : Option ShortProfile → Comment → CommentView
view_with none c = record { comment = c; author_name = "Пользователь"; author_avatar = none }
view_with (some p) c = record {
  comment = c;
  author_name = p.full_name;
  author_avatar = p.avatar_path;
}

abbrev pub author_ids : List Comment → List ℕ
author_ids cs = map (λ (c : Comment). c.author_id) cs

module _ (clients : Clients) where
  -- `enrichCommentWithProfile`
  unfoldable pub enrich_comment : Comment → Method CommentView
  enrich_comment c = do
    profiles ← or_return Sentinel.service (lift (clients.short_profile_map (c.author_id ∷ [])))
    pure (view_with (profiles c.author_id) c)

  -- `enrichCommentsWithProfiles`: nothing is asked for no comments.
  unfoldable pub enrich_comments : List Comment → Method (List CommentView)
  enrich_comments [] = pure []
  enrich_comments (c ∷ cs) = do
    profiles ← or_return Sentinel.service (lift (clients.short_profile_map (author_ids (c ∷ cs))))
    pure (map (λ (d : Comment). view_with (profiles d.author_id) d) (c ∷ cs))

  unfoldable pub get_comment : ℕ → Method CommentView
  get_comment id = on_error missing_or_db (get_comment_by_id id) >>= enrich_comment

  unfoldable pub update_comment : ℕ → ℕ → String → Method (Unit {0})
  update_comment id user_id text = do
    return_if (not (clients.valid_text text)) Sentinel.invalid_input
    existing ← on_error missing_or_db (get_comment_by_id id)
    return_if (not (existing.author_id == user_id)) Sentinel.access_denied
    or_return Sentinel.db (update_comment_row id user_id text)

  module _ (posts : PostTables) where
    unfoldable pub create_comment : ℕ → CommentCreateRequest → Method CommentView
    create_comment user_id req = do
      return_if (not (clients.valid_creation req)) Sentinel.invalid_input
      _ ← on_error no_post_or_db (on_part (posts_part posts) (get_post_by_id user_id req.post_id))
      comment ← or_return Sentinel.db (create_comment_row req.post_id user_id req.text)
      enrich_comment comment

    unfoldable pub get_post_comments : ℕ → ℕ → PaginateQueryParams → Method (List CommentView)
    get_post_comments user_id post_id params =
        let (offset, limit) = validate_pagination_params params in
        (do
          _ ← on_error no_post_or_db (on_part (posts_part posts) (get_post_by_id user_id post_id))
          comments ← or_return Sentinel.db (get_comments_by_post post_id limit offset)
          enrich_comments comments)

unfoldable pub delete_comment : ℕ → ℕ → Method (Unit {0})
delete_comment id user_id = do
  existing ← on_error missing_or_db (get_comment_by_id id)
  return_if (not (existing.author_id == user_id)) Sentinel.access_denied
  or_return Sentinel.db (delete_comment_row id user_id)

unfoldable pub get_post_comments_count : ℕ → Method ℕ
get_post_comments_count post_id = or_return Sentinel.db (get_post_comments_count_row post_id)
