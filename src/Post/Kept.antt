-- ===== src/Post/Kept.antt =====
-- The statements and the transactions of one user keep the posts of another.
mod Files
use Prim.Native.String.{len}
use slps_team.Prelude.{
  ℕ, suc, String, ap, ◌∙◌, sym, subst, arith, ◌≡◌, refl, Bool, true, false, not, ◌&&◌, ◌||◌, ◌==◌,
  ltb, any, keep, tally, map, List, [], ◌∷◌, ◌++◌, Option, some,
}
use slps_team.Flow.Keeps.{Keeps-bind, Keeps-return_if}
use slps_team.Flow.Meets.{
  Meets-bind, Meets-pure, Meets-raise, Meets-if, Meets-return_if, Meets-weaken, Keeps-Meets,
}
use slps_team.Errors.{Sentinel}
use slps_team.Flow.{◌>>=◌}
use slps_team.Sql.{wrap_error, commit_tx}
use slps_team.Sql.Keeps.{Preserves}
use slps_team.Sql.Meets.{
  Takes, Takes-wrap_error, Takes-exec, Takes-result_of, Takes-in_transaction, Takes-begin,
  Takes-commit_tx,
}
use slps_team.Chat.Text.{is_blank}
use slps_team.Post.{PostRow, MediaRow, Post, PostTables}
use slps_team.Post.Table.{
  Media, is_post, written_by, rewritten, is_media_of, media_row, paths_of, insert_post,
  insert_media, delete_media, update_posts, delete_posts, toggle_likes,
}
use slps_team.Post.Store.{
  undone, empty_path, long_path, save_failure, delete_failure, save_media, replace_media,
  create_post_row, update_post_row, delete_post_row,
}
use slps_team.Post.Rows.{
  IsKept, IsFree, with_files, rows_of, posts_of, paths-append, paths-keep, files_elsewhere,
  rows-rewritten, rows-away, none_of, found-free, deleted-free, any_writer-rewritten,
  distinct-rewritten, below-rewritten, distinct-keep, below-keep, no_next, below_more,
}
use slps_team.Post.Kept.Files.{
  During, Apart, save_media-Apart, replace_media-Apart, undone-IsKept, start-During,
}

module _ (o : ℕ) (kept : List Post) where
  module _ (u : ℕ) (other : not (u == o) ≡ true) where
    insert_post-Apart :
        (next : ℕ) (text : String) (community_id : Option ℕ) (now : ℕ) (t : PostTables)
        (row : PostRow) (t' : PostTables)
        → During o kept next t
        → insert_post u text community_id now t ≡ some (row, t')
        → Apart o kept next row.id t'
    unfolding insert_post
    insert_post-Apart next text community_id now t row t' (h, later) e =
        let absent : any (is_post t.next_id) t.posts ≡ false = no_next t.next_id t.posts h.below in
        let alone : any (written_by t.next_id o) t.posts ≡ false =
          none_of o u other t.next_id t.posts absent in
        (
          (
            record {
              theirs = ground (arith, other, h.theirs, e);
              ids = ground (arith, h.ids, e, absent);
              below = ground (
                arith,
                h.below,
                e,
                below_more t.next_id (suc t.next_id) t.posts (ground arith) h.below,
              );
            },
            ground (arith, e, later),
          ),
          ground (arith, e, other, alone),
        )

    pub create_row_keeps :
        (text : String) (community_id : Option ℕ) (attachments photos : List String)
        → Preserves (IsKept o kept) (create_post_row u text community_id attachments photos)
    unfolding create_post_row
    create_row_keeps text community_id attachments photos = Keeps-Meets _ (
        Takes-in_transaction (IsKept o kept) (λ _ t. IsKept o kept t) (IsKept o kept) undone
          (λ before t. During o kept before.next_id t) _ (undone-IsKept o kept)
          λ before h.
            let next = before.next_id in
            Meets-bind _ _
              (Takes-begin {E = During o kept next} (λ t e. start-During o kept before t h e) _)
              λ now.
                Meets-bind _ _
                  (Takes-wrap_error (λ t. t ≡ before) (λ row t. Apart o kept next row.id t)
                    (During o kept next) "failed to create post" _
                    (Takes-exec (λ t. t ≡ before) (λ row t. Apart o kept next row.id t)
                      (During o kept next) _ (λ t e. start-During o kept before t h e)
                      λ _ t row t' e ran.
                        insert_post-Apart next text community_id now t row t'
                          (start-During o kept before t h e) ran))
                  λ row.
                    Meets-bind _ _
                      (save_media-Apart o kept next row.id Media.attachment now attachments)
                      λ _.
                        Meets-bind _ _ (save_media-Apart o kept next row.id Media.photo now photos)
                          λ _.
                            Meets-bind _ _ (Takes-commit_tx {E = During o kept next} (λ t k. k.0) _)
                              λ _. Meets-pure row λ db k. k.0.0)

    -- The row is still to be found: its id is not `o`'s.
    abbrev Found : ℕ → ℕ → ℕ → PostTables → Type 0
    Found next id count t = During o kept next t × ((count == 0) ≡ false → IsFree o id t)

    update_posts-Found :
        (next id : ℕ) (text : String) (now : ℕ) (t : PostTables) (count : ℕ) (t' : PostTables)
        → During o kept next t
        → update_posts id u text now t ≡ some (count, t')
        → Found next id count t'
    unfolding update_posts
    update_posts-Found next id text now t count t' (h, later) e =
        let ps : List PostRow = map (rewritten id u text now) t.posts in
        let moved : record t { posts = ps } ≡ t' = ground (arith, e) in
        let counted : tally (written_by id u) t.posts ≡ count = ground (arith, e) in
        let view : map (with_files t.attachments t.photos) (rows_of o ps) ≡ kept =
          ap (map (with_files t.attachments t.photos))
            (rows-rewritten o u other id now text t.posts)
          ∙ h.theirs in
        subst (Found next id count) moved (
          (
            record {
              theirs = view;
              ids = distinct-rewritten id u now text t.posts ∙ h.ids;
              below = below-rewritten id u now text t.next_id t.posts ∙ h.below;
            },
            later,
          ),
          λ some_found.
              any_writer-rewritten id u now text o id t.posts
              ∙ found-free o u other id t.posts h.ids (ap (λ (k : ℕ). k == 0) counted ∙ some_found),
        )

    pub update_row_keeps :
        (id : ℕ) (text : String) (attachments photos : List String)
        → Preserves (IsKept o kept) (update_post_row id u text attachments photos)
    unfolding update_post_row
    update_row_keeps id text attachments photos = Keeps-Meets _ (
        Takes-in_transaction (IsKept o kept) (λ _ t. IsKept o kept t) (IsKept o kept) undone
          (λ before t. During o kept before.next_id t) _ (undone-IsKept o kept)
          λ before h.
            let next = before.next_id in
            Meets-bind _ _
              (Takes-begin {E = During o kept next} (λ t e. start-During o kept before t h e) _)
              λ now.
                Meets-bind _ _
                  (Takes-wrap_error (λ t. t ≡ before) (Found next id) (During o kept next)
                    "failed to update post" _
                    (Takes-exec (λ t. t ≡ before) (Found next id) (During o kept next) _
                      (λ t e. start-During o kept before t h e)
                      λ _ t count t' e ran.
                        update_posts-Found next id text now t count t'
                          (start-During o kept before t h e) ran))
                  λ count. Meets-bind _ _ (Meets-return_if (count == 0) _ λ db k. k.0) λ _. record {
                    at = λ db ((k, free), missing). (replaced next now).at db (k, free missing);
                  })
      where
        replaced :
            (next now : ℕ)
            → Takes
                (Apart o kept next id)
                (replace_media Media.attachment now id attachments >>= λ _.
                  replace_media Media.photo now id photos >>= λ _.
                  wrap_error "failed to commit transaction" commit_tx)
                (λ _ t. IsKept o kept t)
                (During o kept next)
        replaced next now =
            Meets-bind _ _ (replace_media-Apart o kept next id Media.attachment now attachments)
              λ _. Meets-bind _ _ (replace_media-Apart o kept next id Media.photo now photos) λ _.
                Meets-weaken _ (λ db k. k) (λ _ db k. k.0.0) (λ db k. k)
                  (Takes-commit_tx {E = During o kept next} (λ t k. k.0) _)

    delete_posts-During :
        (next id : ℕ) (t : PostTables) (count : ℕ) (t' : PostTables)
        → During o kept next t
        → delete_posts id u t ≡ some (count, t')
        → During o kept next t'
    unfolding delete_posts
    delete_posts-During next id t count t' (h, later) e =
        let deleted : Bool = any (written_by id u) t.posts in
        let stays : PostRow → Bool = λ p. not (written_by id u p) in
        let files_a : List MediaRow = keep (λ r. not (deleted && is_media_of id r)) t.attachments in
        let files_b : List MediaRow = keep (λ r. not (deleted && is_media_of id r)) t.photos in
        let posts : t'.posts ≡ keep stays t.posts = ground (arith, e) in
        let next' : t'.next_id ≡ t.next_id = ground (arith, e) in
        let files : t'.attachments ≡ files_a = ground (arith, e) in
        let files' : t'.photos ≡ files_b = ground (arith, e) in
        let view : map (with_files files_a files_b) (rows_of o (keep stays t.posts)) ≡ kept =
          ap (map (with_files files_a files_b)) (rows-away o u other id t.posts)
          ∙ untouched deleted refl
          ∙ h.theirs in
        (
          record {
            theirs = rw (posts, files, files') view;
            ids = rw posts (distinct-keep stays t.posts h.ids);
            below = rw (posts, next') (below-keep stays t.next_id t.posts h.below);
          },
          rw next' later,
        )
      where
        keep_all : (rows : List MediaRow) → keep (λ r. not (false && is_media_of id r)) rows ≡ rows
        keep_all [] = refl
        keep_all (r ∷ rs) = ap (◌∷◌ r) (keep_all rs)

        untouched :
            (b : Bool)
            → any (written_by id u) t.posts ≡ b
            → map
                (with_files
                  (keep (λ r. not (b && is_media_of id r)) t.attachments)
                  (keep (λ r. not (b && is_media_of id r)) t.photos))
                (rows_of o t.posts)
              ≡ posts_of o t
        untouched true found =
            files_elsewhere o id t.attachments _ t.photos _
              (λ pid apart. paths-keep id pid true t.attachments apart)
              (λ pid apart. paths-keep id pid true t.photos apart) t.posts
              (deleted-free o u other id t.posts h.ids found)
        untouched false none_found = rw (keep_all t.attachments, keep_all t.photos) refl

    pub delete_row_keeps : (id : ℕ) → Preserves (IsKept o kept) (delete_post_row id u)
    unfolding delete_post_row
    delete_row_keeps id =
        Keeps-bind _ _ (Keeps-return_if (id == 0 || u == 0) Sentinel.invalid_input) λ _.
          Keeps-Meets _ (
            Takes-in_transaction (IsKept o kept) (λ _ t. IsKept o kept t) (IsKept o kept) undone
              (λ before t. During o kept before.next_id t) _ (undone-IsKept o kept)
              λ before h.
                let next = before.next_id in
                Meets-bind _ _
                  (Takes-begin {E = During o kept next} (λ t e. start-During o kept before t h e) _)
                  λ now.
                    Meets-bind _ _
                      (Takes-wrap_error (λ t. t ≡ before) (λ _ t. During o kept next t)
                        (During o kept next) "failed to delete post" _
                        (Takes-exec (λ t. t ≡ before) (λ _ t. During o kept next t)
                          (During o kept next) _ (λ t e. start-During o kept before t h e)
                          λ _ t count t' e ran.
                            delete_posts-During next id t count t'
                              (start-During o kept before t h e) ran))
                      λ result.
                        Meets-bind _ _
                          (Takes-wrap_error (During o kept next) (λ _ t. During o kept next t)
                            (During o kept next) "failed to get rows affected" _
                            (Takes-result_of (During o kept next) (λ _ t. During o kept next t)
                              (During o kept next) result (λ t k. k) λ t k. k))
                          λ count. Meets-bind _ _ (Meets-return_if (count == 0) _ λ db k. k) λ _.
                            Meets-weaken _ (λ db k. k.0) (λ _ db k. k.0) (λ db k. k)
                              (Takes-commit_tx {E = During o kept next} (λ t k. k) _))

pub toggle_likes-IsKept :
    (o u : ℕ) (kept : List Post) (post_id now : ℕ) (t : PostTables) (n : ℕ) (t' : PostTables)
    → IsKept o kept t
    → toggle_likes post_id u now t ≡ some (n, t')
    → IsKept o kept t'
unfolding toggle_likes
toggle_likes-IsKept o u kept post_id now t n t' h e = record {
  theirs = ground (arith, e, h.theirs);
  ids = ground (arith, e, h.ids);
  below = ground (arith, e, h.below);
}
