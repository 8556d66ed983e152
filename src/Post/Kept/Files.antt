-- ===== src/Post/Kept/Files.antt =====
-- The files of one user's post, in a transaction, keep the posts of another.
use Prim.Native.String.{len}
use slps_team.Prelude.{
  ℕ, String, ◌∙◌, sym, subst, arith, ◌≡◌, refl, true, false, not, ◌||◌, ◌==◌, ltb, keep, List, [],
  ◌∷◌, ◌++◌, some,
}
use slps_team.Flow.Meets.{Meets-bind, Meets-pure, Meets-raise, Meets-if}
use slps_team.Sql.Meets.{Takes, Takes-wrap_error, Takes-exec}
use slps_team.Chat.Text.{is_blank}
use slps_team.Post.{MediaRow, Post, PostTables}
use slps_team.Post.Table.{Media, is_media_of, media_row, paths_of, insert_media, delete_media}
use slps_team.Post.Store.{
  undone, empty_path, long_path, save_failure, delete_failure, save_media, replace_media,
}
use slps_team.Post.Rows.{IsKept, IsFree, paths-append, paths-keep, files_elsewhere, below_more}

module _ (o : ℕ) (kept : List Post) where
  -- In a transaction: the identity column has not gone back.
  abbrev pub During : ℕ → PostTables → Type 0
  During next t = IsKept o kept t × (ltb t.next_id next ≡ false)

  module _ (next id : ℕ) where
    abbrev pub Apart : PostTables → Type 0
    Apart t = During next t × IsFree o id t

    -- Other files for the post.
    files-Apart :
        (t : PostTables) (a b : List MediaRow)
        → ((pid : ℕ) → (pid == id) ≡ false → paths_of pid a ≡ paths_of pid t.attachments)
        → ((pid : ℕ) → (pid == id) ≡ false → paths_of pid b ≡ paths_of pid t.photos)
        → Apart t
        → Apart (record t { attachments = a; photos = b })
    files-Apart t a b same_a same_b ((h, later), free) = (
      (
        record {
          theirs =
              files_elsewhere o id t.attachments a t.photos b same_a same_b t.posts free ∙ h.theirs;
          ids = h.ids;
          below = h.below;
        },
        later,
      ),
      free,
    )

    insert_media-Apart :
        (m : Media) (path : String) (now : ℕ) (t : PostTables) (n : ℕ) (t' : PostTables)
        → Apart t
        → insert_media m id path now t ≡ some (n, t')
        → Apart t'
    unfolding insert_media
    insert_media-Apart Media.attachment path now t n t' h e =
        let more : List MediaRow = t.attachments ++ media_row now id path ∷ [] in
        let moved : record t { attachments = more; photos = t.photos } ≡ t' = ground (arith, e) in
        subst Apart moved (
          files-Apart t more t.photos
            (λ pid apart. paths-append id pid now path t.attachments apart) (λ pid apart. refl) h)
    insert_media-Apart Media.photo path now t n t' h e =
        let more : List MediaRow = t.photos ++ media_row now id path ∷ [] in
        let moved : record t { attachments = t.attachments; photos = more } ≡ t' =
          ground (arith, e) in
        subst Apart moved (
          files-Apart t t.attachments more (λ pid apart. refl)
            (λ pid apart. paths-append id pid now path t.photos apart) h)

    delete_media-Apart :
        (m : Media) (t : PostTables) (n : ℕ) (t' : PostTables)
        → Apart t
        → delete_media m id t ≡ some (n, t')
        → Apart t'
    unfolding delete_media
    delete_media-Apart Media.attachment t n t' h e =
        let less : List MediaRow = keep (λ r. not (is_media_of id r)) t.attachments in
        let moved : record t { attachments = less; photos = t.photos } ≡ t' = ground (arith, e) in
        subst Apart moved (
          files-Apart t less t.photos (λ pid apart. paths-keep id pid true t.attachments apart)
            (λ pid apart. refl) h)
    delete_media-Apart Media.photo t n t' h e =
        let less : List MediaRow = keep (λ r. not (is_media_of id r)) t.photos in
        let moved : record t { attachments = t.attachments; photos = less } ≡ t' =
          ground (arith, e) in
        subst Apart moved (
          files-Apart t t.attachments less (λ pid apart. refl)
            (λ pid apart. paths-keep id pid true t.photos apart) h)

    pub save_media-Apart :
        (m : Media) (now : ℕ) (paths : List String)
        → Takes Apart (save_media m now id paths) (λ _ t. Apart t) (During next)
    unfolding save_media
    save_media-Apart m now [] = Meets-pure tt λ db h. h
    save_media-Apart m now (path ∷ paths) =
        Meets-if (is_blank path) _ _ (Meets-raise (empty_path m) λ db h. h.0) (
          Meets-if (ltb (len path) 1 || ltb 512 (len path)) _ _
            (Meets-raise (long_path m) λ db h. h.0)
            (Meets-bind _ _
              (Takes-wrap_error Apart (λ _ t. Apart t) (During next) (save_failure m) _
                (Takes-exec Apart (λ _ t. Apart t) (During next) _ (λ t h. h.0)
                  λ _ t n t' h e. insert_media-Apart m path now t n t' h e))
              (λ _. save_media-Apart m now paths)))

    pub replace_media-Apart :
        (m : Media) (now : ℕ) (paths : List String)
        → Takes Apart (replace_media m now id paths) (λ _ t. Apart t) (During next)
    unfolding replace_media
    replace_media-Apart m now paths =
        Meets-bind _ _
          (Takes-wrap_error Apart (λ _ t. Apart t) (During next) (delete_failure m) _
            (Takes-exec Apart (λ _ t. Apart t) (During next) _ (λ t h. h.0)
              λ _ t n t' h e. delete_media-Apart m t n t' h e))
          (λ _. save_media-Apart m now paths)

  -- A rollback keeps the posts, with a later identity column.
  pub undone-IsKept :
      (before t : PostTables)
      → IsKept o kept before
      → During before.next_id t
      → IsKept o kept (undone before t)
  undone-IsKept before t h (_, later) = record {
    theirs = h.theirs;
    ids = h.ids;
    below = below_more before.next_id t.next_id before.posts later h.below;
  }

  pub start-During :
      (before t : PostTables) → IsKept o kept before → t ≡ before → During before.next_id t
  start-During before t h e =
      subst (λ (x : PostTables). During before.next_id x) (sym e) (h, ground arith)
