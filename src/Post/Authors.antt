-- ===== src/Post/Authors.antt =====
-- Histories of requests that change posts, in any environment: whose posts change.
use slps_team.Prelude.{ℕ, ◌≡◌, true, not, ◌==◌, all, List}
use slps_team.Flow.Keeps.{Keeps-bind, Keeps-pure}
use slps_team.Flow.Meets.{Meets-weaken, Meets-Keeps}
use slps_team.Sql.Keeps.{Preserves-exec, Preserves-wrap_error}
use slps_team.Uploads.{Names}
use slps_team.Post.{Post}
use slps_team.Post.Store.{update_like_row}
use slps_team.Post.Service.{Clients, World}
use slps_team.Post.Rows.{IsKept}
use slps_team.Post.Kept.{create_row_keeps, update_row_keeps, delete_row_keeps, toggle_likes-IsKept}
use slps_team.Post.Requests.{Asked, run_posts, IsClosed, run_keeps}

IsKept-IsClosed : (o u : ℕ) (kept : List Post) → not (u == o) ≡ true → IsClosed (IsKept o kept) u
unfolding update_like_row
IsKept-IsClosed o u kept other = record {
  create_closed = λ text community_id fs gs.
      Meets-weaken _ (λ db h. h.0) (λ _ db h. h) (λ db h. h)
        (Meets-Keeps _ (create_row_keeps o kept u other text community_id fs gs));
  update_closed = λ id text fs gs. update_row_keeps o kept u other id text fs gs;
  delete_closed = λ id. delete_row_keeps o kept u other id;
  like_closed = λ id.
      Keeps-bind _ _
        (Preserves-wrap_error (IsKept o kept) "exec failed" _ (
          Preserves-exec (IsKept o kept) _
            λ now t n t' h e. toggle_likes-IsKept o u kept id now t n t' h e))
        (λ _. Keeps-pure _);
}

-- Whatever is asked of the service of posts, whatever the clients answer and whatever fails, in tables
-- where the ids of posts are distinct and below the next one: if none of the requests is of the user
-- `o`, then the rows of `o`'s posts are all there, in order and as they were, each with the same paths
-- of attachments and photos in the tables, and no post has become `o`'s; and the conditions on the ids
-- still hold. Nothing is said of what the directory has under these paths.
pub run_posts-IsKept :
    (c : Clients) (names : Names) (o : ℕ) (kept : List Post) (rs : List Asked) (w : World)
    → IsKept o kept w.db.tables
    → all (λ r. not (r.caller == o)) rs ≡ true
    → IsKept o kept (run_posts c names rs w).db.tables
run_posts-IsKept c names o kept rs w h e =
    run_keeps (IsKept o kept) c names (λ u. not (u == o))
      (λ u other. IsKept-IsClosed o u kept other) rs e w h
