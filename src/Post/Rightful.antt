-- ===== src/Post/Rightful.antt =====
-- Who writes in a community: its creator, in any history of requests and in any environment.
use Prim.Native.String.{len}
use slps_team.Prelude.{
  ℕ, String, subst, sym, arith, ◌≡◌, refl, Bool, true, not, ◌&&◌, ◌||◌, ◌==◌, ltb, any, all, keep,
  map, List, [], ◌∷◌, Option, none, some,
}
use slps_team.Errors.{Sentinel}
use slps_team.Flow.Keeps.{Keeps-bind, Keeps-pure, Keeps-if, Keeps-raise, Keeps-return_if}
use slps_team.Flow.Meets.{Meets-bind, Meets-Keeps}
use slps_team.Sql.Keeps.{
  Preserves, Preserves-exec, Preserves-wrap_error, Preserves-result_of, Preserves-begin,
  Preserves-commit_tx, Preserves-in_transaction,
}
use slps_team.Sql.Meets.{Takes, Takes-wrap_error, Takes-exec, Takes-in_transaction, Takes-begin}
use slps_team.Uploads.{Names}
use slps_team.Chat.Text.{is_blank}
use slps_team.Community.{CommunityRow}
use slps_team.Community.Table.{has_id}
use slps_team.Post.{PostRow, PostTables}
use slps_team.Post.Table.{
  Media, written_by, rewritten, insert_post, insert_media, delete_media, update_posts, delete_posts,
  toggle_likes,
}
use slps_team.Post.Store.{
  undone, empty_path, long_path, save_failure, delete_failure, save_media, replace_media,
  create_post_row, update_post_row, delete_post_row, update_like_row,
}
use slps_team.Post.Service.{Clients, World}
use slps_team.Post.Requests.{Asked, run_posts, Allows, IsClosed, run_keeps}

abbrev pub is_rightful_in : List CommunityRow → Option ℕ → ℕ → Bool
is_rightful_in cs none author = true
is_rightful_in cs (some id) author = any (λ c. has_id id c && c.creator_id == author) cs

-- Each post in a community is by a creator of that community.
abbrev pub IsRightful : List CommunityRow → PostTables → Type 0
IsRightful cs t =
    (t.community.communities ≡ cs)
    × (all (λ p. is_rightful_in cs p.community_id p.author_id) t.posts ≡ true)

module _ (cs : List CommunityRow) where
  rightful-rewritten :
      (id u now : ℕ) (text : String) (ps : List PostRow)
      → all (λ p. is_rightful_in cs p.community_id p.author_id) (map (rewritten id u text now) ps)
        ≡ all (λ p. is_rightful_in cs p.community_id p.author_id) ps
  rightful-rewritten id u now text [] = refl
  rightful-rewritten id u now text (p ∷ ps) = ground (arith, rightful-rewritten id u now text ps)

  rightful-keep :
      (test : PostRow → Bool) (ps : List PostRow)
      → all (λ p. is_rightful_in cs p.community_id p.author_id) ps ≡ true
      → all (λ p. is_rightful_in cs p.community_id p.author_id) (keep test ps) ≡ true
  rightful-keep test [] e = refl
  rightful-keep test (p ∷ ps) e = ground (arith, e, rightful-keep test ps)

  allowed :
      (community_id : Option ℕ) (u : ℕ) (t : PostTables)
      → t.community.communities ≡ cs
      → Allows community_id u t
      → is_rightful_in cs community_id u ≡ true
  allowed none u t e h = refl
  allowed (some id) u t e h =
      subst (λ (xs : List CommunityRow). any (λ c. has_id id c && c.creator_id == u) xs ≡ true) e h

  insert_media-IsRightful :
      (m : Media) (id : ℕ) (path : String) (now : ℕ) (t : PostTables) (n : ℕ) (t' : PostTables)
      → IsRightful cs t
      → insert_media m id path now t ≡ some (n, t')
      → IsRightful cs t'
  unfolding insert_media
  insert_media-IsRightful Media.attachment id path now t n t' h e =
      (ground (arith, e, h.0), ground (arith, e, h.1))
  insert_media-IsRightful Media.photo id path now t n t' h e =
      (ground (arith, e, h.0), ground (arith, e, h.1))

  delete_media-IsRightful :
      (m : Media) (id : ℕ) (t : PostTables) (n : ℕ) (t' : PostTables)
      → IsRightful cs t
      → delete_media m id t ≡ some (n, t')
      → IsRightful cs t'
  unfolding delete_media
  delete_media-IsRightful Media.attachment id t n t' h e =
      (ground (arith, e, h.0), ground (arith, e, h.1))
  delete_media-IsRightful Media.photo id t n t' h e =
      (ground (arith, e, h.0), ground (arith, e, h.1))

  save_media-keeps :
      (m : Media) (now id : ℕ) (paths : List String)
      → Preserves (IsRightful cs) (save_media m now id paths)
  unfolding save_media
  save_media-keeps m now id [] = Keeps-pure tt
  save_media-keeps m now id (path ∷ paths) =
      Keeps-if (is_blank path) _ _ (Keeps-raise (empty_path m)) (
        Keeps-if (ltb (len path) 1 || ltb 512 (len path)) _ _ (Keeps-raise (long_path m)) (
          Keeps-bind _ _
            (Preserves-wrap_error (IsRightful cs) (save_failure m) _ (
              Preserves-exec (IsRightful cs) _
                λ _ t n t' h e. insert_media-IsRightful m id path now t n t' h e))
            (λ _. save_media-keeps m now id paths)))

  replace_media-keeps :
      (m : Media) (now id : ℕ) (paths : List String)
      → Preserves (IsRightful cs) (replace_media m now id paths)
  unfolding replace_media
  replace_media-keeps m now id paths =
      Keeps-bind _ _
        (Preserves-wrap_error (IsRightful cs) (delete_failure m) _ (
          Preserves-exec (IsRightful cs) _ λ _ t n t' h e. delete_media-IsRightful m id t n t' h e))
        (λ _. save_media-keeps m now id paths)

  module _ (u : ℕ) where
    insert_post-IsRightful :
        (text : String) (community_id : Option ℕ) (now : ℕ) (t : PostTables) (row : PostRow)
        (t' : PostTables)
        → IsRightful cs t
        → Allows community_id u t
        → insert_post u text community_id now t ≡ some (row, t')
        → IsRightful cs t'
    unfolding insert_post
    insert_post-IsRightful text community_id now t row t' h allows e =
        let mine : is_rightful_in cs community_id u ≡ true = allowed community_id u t h.0 allows in
        (ground (arith, e, h.0), ground (arith, e, h.1, mine))

    create_row-Takes :
        (text : String) (community_id : Option ℕ) (fs gs : List String)
        → Takes
            (λ t. IsRightful cs t × Allows community_id u t)
            (create_post_row u text community_id fs gs)
            (λ _ t. IsRightful cs t)
            (IsRightful cs)
    unfolding create_post_row
    create_row-Takes text community_id fs gs =
        let Before : PostTables → Type 0 = λ t. IsRightful cs t × Allows community_id u t in
        Takes-in_transaction Before (λ _ t. IsRightful cs t) (IsRightful cs) undone
          (λ before t. IsRightful cs t) _ (λ before t h d. h.0)
          λ before h.
            Meets-bind _ _
              (Takes-begin {P = λ t. t ≡ before} {E = IsRightful cs}
                (λ t e. subst (IsRightful cs) (sym e) h.0) _)
              λ now.
                Meets-bind _ _
                  (Takes-wrap_error (λ t. t ≡ before) (λ _ t. IsRightful cs t) (IsRightful cs)
                    "failed to create post" _
                    (Takes-exec (λ t. t ≡ before) (λ _ t. IsRightful cs t) (IsRightful cs) _
                      (λ t e. subst (IsRightful cs) (sym e) h.0)
                      λ _ t row t' e ran.
                        let here : Before t = subst Before (sym e) h in
                        insert_post-IsRightful text community_id now t row t' here.0 here.1 ran))
                  λ row. Meets-Keeps _ (
                    Keeps-bind _ _ (save_media-keeps Media.attachment now row.id fs) λ _.
                      Keeps-bind _ _ (save_media-keeps Media.photo now row.id gs) λ _.
                        Keeps-bind _ _
                          (Preserves-wrap_error (IsRightful cs) "failed to commit transaction" _
                            (Preserves-commit_tx (IsRightful cs)))
                          λ _. Keeps-pure row)

    update_posts-IsRightful :
        (id : ℕ) (text : String) (now : ℕ) (t : PostTables) (n : ℕ) (t' : PostTables)
        → IsRightful cs t
        → update_posts id u text now t ≡ some (n, t')
        → IsRightful cs t'
    unfolding update_posts
    update_posts-IsRightful id text now t n t' h e =
        (ground (arith, e, h.0), ground (arith, e, h.1, rightful-rewritten id u now text t.posts))

    delete_posts-IsRightful :
        (id : ℕ) (t : PostTables) (n : ℕ) (t' : PostTables)
        → IsRightful cs t
        → delete_posts id u t ≡ some (n, t')
        → IsRightful cs t'
    unfolding delete_posts
    delete_posts-IsRightful id t n t' h e =
        let posts : t'.posts ≡ keep (λ p. not (written_by id u p)) t.posts = ground (arith, e) in
        (ground (arith, e, h.0), rw posts (rightful-keep _ t.posts h.1))

    toggle_likes-IsRightful :
        (id now : ℕ) (t : PostTables) (n : ℕ) (t' : PostTables)
        → IsRightful cs t
        → toggle_likes id u now t ≡ some (n, t')
        → IsRightful cs t'
    unfolding toggle_likes
    toggle_likes-IsRightful id now t n t' h e = (ground (arith, e, h.0), ground (arith, e, h.1))

    update_row_keeps :
        (id : ℕ) (text : String) (fs gs : List String)
        → Preserves (IsRightful cs) (update_post_row id u text fs gs)
    unfolding update_post_row
    update_row_keeps id text fs gs =
        Preserves-in_transaction (IsRightful cs) undone _ (λ before t h k. h)
          (Keeps-bind _ _
            (Preserves-wrap_error (IsRightful cs) "failed to begin transaction" _
              (Preserves-begin (IsRightful cs)))
            λ now.
              Keeps-bind _ _
                (Preserves-wrap_error (IsRightful cs) "failed to update post" _ (
                  Preserves-exec (IsRightful cs) _
                    λ _ t n t' h e. update_posts-IsRightful id text now t n t' h e))
                λ count. Keeps-bind _ _ (Keeps-return_if (count == 0) Sentinel.post_not_found) λ _.
                  Keeps-bind _ _ (replace_media-keeps Media.attachment now id fs) λ _.
                    Keeps-bind _ _ (replace_media-keeps Media.photo now id gs) λ _.
                      Preserves-wrap_error (IsRightful cs) "failed to commit transaction" _
                        (Preserves-commit_tx (IsRightful cs)))

    delete_row_keeps : (id : ℕ) → Preserves (IsRightful cs) (delete_post_row id u)
    unfolding delete_post_row
    delete_row_keeps id =
        Keeps-bind _ _ (Keeps-return_if (id == 0 || u == 0) Sentinel.invalid_input) λ _.
          Preserves-in_transaction (IsRightful cs) undone _ (λ before t h k. h)
            (Keeps-bind _ _
              (Preserves-wrap_error (IsRightful cs) "failed to begin transaction" _
                (Preserves-begin (IsRightful cs)))
              λ now.
                Keeps-bind _ _
                  (Preserves-wrap_error (IsRightful cs) "failed to delete post" _ (
                    Preserves-exec (IsRightful cs) _
                      λ _ t n t' h e. delete_posts-IsRightful id t n t' h e))
                  λ result.
                    Keeps-bind _ _
                      (Preserves-wrap_error (IsRightful cs) "failed to get rows affected" _
                        (Preserves-result_of (IsRightful cs) result))
                      λ count.
                        Keeps-bind _ _ (Keeps-return_if (count == 0) Sentinel.post_not_found) λ _.
                          Preserves-wrap_error (IsRightful cs) "failed to commit transaction" _
                            (Preserves-commit_tx (IsRightful cs)))

    IsRightful-IsClosed : IsClosed (IsRightful cs) u
    unfolding update_like_row
    IsRightful-IsClosed = record {
      create_closed = create_row-Takes;
      update_closed = update_row_keeps;
      delete_closed = delete_row_keeps;
      like_closed = λ id.
          Keeps-bind _ _
            (Preserves-wrap_error (IsRightful cs) "exec failed" _ (
              Preserves-exec (IsRightful cs) _
                λ now t n t' h e. toggle_likes-IsRightful id now t n t' h e))
            (λ _. Keeps-pure _);
    }

every : (rs : List Asked) → all (λ r. true) rs ≡ true
every [] = refl
every (r ∷ rs) = every rs

-- Whatever is asked, by whomever, whatever the clients answer and whatever fails: if each post in a
-- community is by a creator of that community, this holds afterwards as well, and the communities are
-- the same.
pub run_posts-IsRightful :
    (c : Clients) (names : Names) (cs : List CommunityRow) (rs : List Asked) (w : World)
    → IsRightful cs w.db.tables
    → IsRightful cs (run_posts c names rs w).db.tables
run_posts-IsRightful c names cs rs w h =
    run_keeps (IsRightful cs) c names (λ u. true) (λ u _. IsRightful-IsClosed cs u) rs (every rs) w
      h
