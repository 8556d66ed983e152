-- ===== src/Comment/Store.antt =====
-- `DBCommentStore` of internal/repository/db/comment.go, method by method. Logging is left out.
use slps_team.Prelude.{ℕ, String, ◌==◌, keep, tally, Option, none, some, List}
use slps_team.Prelude.Int.{ℤ}
use slps_team.Prelude.Sort.{sort}
use slps_team.Errors.{Sentinel}
use slps_team.Flow.{Action, pure, fail, return_if, ◌>>=◌}
use slps_team.Paginate.{limit_offset}
use slps_team.Sql.{Db, exec, query, result_of, wrap_error}
use slps_team.Comment.{Comment, CommentTables}
use slps_team.Comment.Table.{
  insert_comment, update_comments, delete_comments, select_comment, newer,
}

abbrev pub Method : Type 0 → Type 0
Method A = Action (Db CommentTables) A

-- `CreateComment` sets the id and the times of its argument, here its result.
unfoldable pub create_comment_row : ℕ → ℕ → String → Method Comment
create_comment_row post_id author_id text =
    wrap_error "failed to create comment"
      (exec λ now t. insert_comment post_id author_id text now t)

abbrev pub comment_or_not_found : Option Comment → Method Comment
comment_or_not_found none = fail Sentinel.not_found
comment_or_not_found (some c) = pure c

unfoldable pub get_comment_by_id : ℕ → Method Comment
get_comment_by_id id = do
  found ← wrap_error "failed to get comment" (query λ t. some (select_comment id t.comments))
  comment_or_not_found found

-- The error of `rows.Err` is passed on as it is.
unfoldable pub get_comments_by_post : ℕ → ℤ → ℤ → Method (List Comment)
get_comments_by_post post_id limit offset = do
  rows ← wrap_error "failed to query comments" (
      query
        λ t. limit_offset limit offset (sort newer (keep (λ c. c.post_id == post_id) t.comments)))
  result_of rows

unfoldable pub update_comment_row : ℕ → ℕ → String → Method (Unit {0})
update_comment_row id author_id text = do
  count ←
      wrap_error "failed to update comment" (exec λ now t. update_comments id author_id text now t)
  return_if (count == 0) Sentinel.not_found

unfoldable pub delete_comment_row : ℕ → ℕ → Method (Unit {0})
delete_comment_row id author_id = do
  result ← wrap_error "failed to delete comment" (exec λ now t. delete_comments id author_id t)
  count ← wrap_error "failed to get rows affected" (result_of result)
  return_if (count == 0) Sentinel.not_found

unfoldable pub get_post_comments_count_row : ℕ → Method ℕ
get_post_comments_count_row post_id =
    wrap_error "failed to get comments count"
      (query λ t. some (tally (λ c. c.post_id == post_id) t.comments))
