-- ===== src/Comment/Authors.antt =====
-- Histories of requests that change comments, in any environment: whose comments change.
use slps_team.Prelude.{
  ℕ, String, arith, ◌≡◌, true, not, ◌==◌, all, List, [], ◌∷◌, Option, none, some,
}
use slps_team.Flow.{pure, ◌>>=◌}
use slps_team.Flow.Keeps.{
  Keeps-bind, Keeps-pure, Keeps-raise, Keeps-return_if, Keeps-or_return, Keeps-on_error, Keeps-lift,
}
use slps_team.Sql.{Db}
use slps_team.Sql.Keeps.{
  Preserves, Preserves-exec, Preserves-wrap_error, Preserves-result_of, Preserves-query,
}
use slps_team.Sql.Focus.{on_part, Preserves-on_part}
use slps_team.Post.{PostTables}
use slps_team.Post.Store.{get_post_by_id}
use slps_team.Post.Requests.{get_post_by_id_keeps}
use slps_team.Comment.{Comment, CommentCreateRequest, CommentTables}
use slps_team.Comment.Table.{select_comment}
use slps_team.Comment.Store.{
  Method, create_comment_row, get_comment_by_id, update_comment_row, delete_comment_row,
  comment_or_not_found,
}
use slps_team.Comment.Service.{
  Clients, posts_part, missing_or_db, no_post_or_db, enrich_comment, create_comment, update_comment,
  delete_comment,
}
use slps_team.Comment.Rows.{IsKept, insert-IsKept, update-IsKept, delete-IsKept}

pub data Request : Type 0 where
  creates : CommentCreateRequest → Request
  updates : ℕ → String → Request
  deletes : ℕ → Request

-- A request and the user of its session.
pub record Asked : Type 0 where
  pub caller : ℕ
  pub request : Request

module _ (clients : Clients) (posts : PostTables) where
  unfoldable pub perform : ℕ → Request → Method (Unit {0})
  perform u (creates req) = create_comment clients posts u req >>= λ _. pure tt
  perform u (updates id text) = update_comment clients id u text
  perform u (deletes id) = delete_comment id u

  unfoldable pub run_comments : List Asked → Db CommentTables → Db CommentTables
  run_comments [] db = db
  run_comments (r ∷ rs) db = run_comments rs (perform r.caller r.request db).1

module _ (clients : Clients) (posts : PostTables) (o u : ℕ) (other : not (u == o) ≡ true)
    (kept : List Comment) where
  create_row_keeps :
      (post_id : ℕ) (text : String) → Preserves (IsKept o kept) (create_comment_row post_id u text)
  unfolding create_comment_row
  create_row_keeps post_id text = Preserves-wrap_error (IsKept o kept) _ _ (
      Preserves-exec (IsKept o kept) _
        λ now t row t' h e. insert-IsKept o u other kept post_id text now t row t' h e)

  update_row_keeps :
      (id : ℕ) (text : String) → Preserves (IsKept o kept) (update_comment_row id u text)
  unfolding update_comment_row
  update_row_keeps id text =
      Keeps-bind _ _
        (Preserves-wrap_error (IsKept o kept) _ _ (
          Preserves-exec (IsKept o kept) _
            λ now t n t' h e. update-IsKept o u other kept id text now t n t' h e))
        (λ n. Keeps-return_if _ _)

  delete_row_keeps : (id : ℕ) → Preserves (IsKept o kept) (delete_comment_row id u)
  unfolding delete_comment_row
  delete_row_keeps id =
      Keeps-bind _ _
        (Preserves-wrap_error (IsKept o kept) _ _ (
          Preserves-exec (IsKept o kept) _
            λ now t n t' h e. delete-IsKept o u other kept id t n t' h e))
        (λ r.
          Keeps-bind _ _
            (Preserves-wrap_error (IsKept o kept) _ _ (Preserves-result_of (IsKept o kept) r))
            (λ n. Keeps-return_if _ _))

  found_keeps : (found : Option Comment) → Preserves (IsKept o kept) (comment_or_not_found found)
  found_keeps none = Keeps-raise _
  found_keeps (some c) = Keeps-pure _

  get_keeps : (id : ℕ) → Preserves (IsKept o kept) (get_comment_by_id id)
  unfolding get_comment_by_id
  get_keeps id =
      Keeps-bind _ _
        (Preserves-wrap_error (IsKept o kept) _ _
          (Preserves-query (IsKept o kept) λ t. some (select_comment id t.comments)))
        (λ found. found_keeps found)

  enrich_keeps : (c : Comment) → Preserves (IsKept o kept) (enrich_comment clients c)
  unfolding enrich_comment
  enrich_keeps c =
      Keeps-bind _ _
        (Keeps-or_return _ _ (Keeps-lift (clients.short_profile_map (c.author_id ∷ []))))
        λ profiles. Keeps-pure _

  post_read :
      (user_id id : ℕ)
      → Preserves (IsKept o kept) (on_part (posts_part posts) (get_post_by_id user_id id))
  post_read user_id id =
      Preserves-on_part (posts_part posts) (IsKept o kept) (get_post_by_id user_id id)
        λ t. get_post_by_id_keeps (λ v. v ≡ t) user_id id

  perform_keeps : (r : Request) → Preserves (IsKept o kept) (perform clients posts u r)
  unfolding perform create_comment update_comment delete_comment
  perform_keeps (creates req) =
      Keeps-bind _ _
        (Keeps-bind _ _ (Keeps-return_if _ _) λ _.
          Keeps-bind _ _ (Keeps-on_error no_post_or_db _ (post_read u req.post_id)) λ _.
            Keeps-bind _ _ (Keeps-or_return _ _ (create_row_keeps req.post_id req.text))
              λ c. enrich_keeps c)
        (λ _. Keeps-pure _)
  perform_keeps (updates id text) = Keeps-bind _ _ (Keeps-return_if _ _) λ _.
      Keeps-bind _ _ (Keeps-on_error missing_or_db _ (get_keeps id)) λ existing.
        Keeps-bind _ _ (Keeps-return_if _ _) λ _. Keeps-or_return _ _ (update_row_keeps id text)
  perform_keeps (deletes id) =
      Keeps-bind _ _ (Keeps-on_error missing_or_db _ (get_keeps id)) λ existing.
        Keeps-bind _ _ (Keeps-return_if _ _) λ _. Keeps-or_return _ _ (delete_row_keeps id)

-- Whatever is asked of the comment service, whatever the profile service answers and whatever fails,
-- for any tables of posts, in a table of comments where ids are distinct and below the next one and no
-- comment is a reply: if none of the requests to create, to update or to delete a comment is of the
-- user `o`, then the rows of `o`'s comments are all there, in order and as they were, and no comment
-- has become `o`'s; and the conditions on the table still hold. Nothing is said of other services: a
-- deleted post takes its comments along.
pub run_comments-IsKept :
    (clients : Clients) (posts : PostTables) (o : ℕ) (kept : List Comment) (rs : List Asked)
    (db : Db CommentTables)
    → IsKept o kept db.tables
    → all (λ r. not (r.caller == o)) rs ≡ true
    → IsKept o kept (run_comments clients posts rs db).tables
unfolding run_comments
run_comments-IsKept clients posts o kept [] db h e = h
run_comments-IsKept clients posts o kept (r ∷ rs) db h e =
    let first : not (r.caller == o) ≡ true = ground (arith, e) in
    let rest : all (λ (q : Asked). not (q.caller == o)) rs ≡ true = ground (arith, e) in
    run_comments-IsKept clients posts o kept rs _
      ((perform_keeps clients posts o r.caller first kept r.request).at db h) rest
