-- ===== src/Post/Posting.antt =====
-- What `CreatePost` leaves, in any environment.
pub mod Rows
use Prim.Native.String.{len}
use slps_team.Prelude.{
  ℕ, suc, String, ap, sym, subst, ◌∙◌, ◌≡◌, refl, arith, Bool, true, false, not, ◌||◌, ltb, ◌==◌,
  List, [], ◌∷◌, ◌++◌, map, Option, none, some,
}
use mathlib.Core.List.{append_assoc, append-nil}
use slps_team.Errors.{Sentinel}
use slps_team.Flow.{Result, ok, err, pure, ◌>>=◌}
use slps_team.Flow.Keeps.{Keeps, Keeps-bind, Keeps-or_return, Keeps-return_if, Keeps-pure}
use slps_team.Flow.Meets.{
  Lands, Meets, Meets-bind, Meets-pure, Meets-raise, Meets-if, Meets-return_if, Meets-weaken,
  Meets-and,
}
use slps_team.Sql.{Db, wrap_error, commit_tx}
use slps_team.Sql.Meets.{
  Takes, Takes-wrap_error, Takes-exec, Takes-in_transaction, Takes-begin, Takes-commit_tx,
}
use slps_team.Uploads.{File, Names, Disk, upload_files}
use slps_team.Backend.{on_db, on_disk, or_clean, cleaned}
use slps_team.Backend.Keeps.{Spares, Spares-nothing, on_db-disk}
use slps_team.Backend.Meets.{Leads-on_db, Meets-or_clean}
use slps_team.Chat.Text.{is_blank}
use slps_team.Post.{PostRow, MediaRow, Post, PostTables}
use slps_team.Post.Table.{
  Media, media_rows, with_media_rows, media_row, fresh_row, insert_post, insert_media,
}
use slps_team.Post.Store.{undone, empty_path, long_path, save_failure, save_media, create_post_row}
use slps_team.Post.Service.{
  Clients, World, delete_paths, upload_any, stored_community, may_post_in, create_post,
}
use slps_team.Post.Requests.{Allows, may_post_in-Leads, Spares-delete_paths, Spares-delete_both}
use slps_team.Post.Posting.Rows.{Back, IsPosted, create_post_row-Takes}

-- The uploads of one kind of files, if there are any.
abbrev pub uploaded_any : Names → List File → Disk → Result (List String) × Disk
uploaded_any names [] d = (ok [], d)
uploaded_any names (f ∷ fs) d = upload_files names (f ∷ fs) d

module _ (t : PostTables) (names : Names) where
  upload_any-Meets :
      (fs : List File) (clean : World → World) (K : Disk → Type 0)
      → Spares PostTables clean
      → Meets
          (λ (w : World). (w.db.tables ≡ t) × K w.disk)
          (upload_any names fs clean)
          (λ paths w.
            (w.db.tables ≡ t) × (d : Disk) × K d × (uploaded_any names fs d ≡ (ok paths, w.disk)))
          (λ w. w.db.tables ≡ t)
  unfolding upload_any on_disk Spares
  upload_any-Meets [] clean K spares = Meets-pure [] λ w (h, k). (h, w.disk, k, refl)
  upload_any-Meets (f ∷ fs) clean K spares = record {
    at = λ w (h, k). landed w h k (upload_files names (f ∷ fs) w.disk) refl;
  }
    where
      landed :
          (w : World)
          → w.db.tables ≡ t
          → K w.disk
          → (x : Result (List String) × Disk) → upload_files names (f ∷ fs) w.disk ≡ x
          → Lands
              (λ paths (v : World).
                (v.db.tables ≡ t)
                × (d : Disk) × K d
                × (upload_files names (f ∷ fs) d ≡ (ok paths, v.disk)))
              (λ (v : World). v.db.tables ≡ t)
              (cleaned clean Sentinel.service (x.0, record w { disk = x.1 }))
      landed w h k (ok paths, d) e = (h, w.disk, k, e)
      landed w h k (err e, d) q =
          ap (λ (db : Db PostTables). db.tables) (spares (record w { disk = d })) ∙ h

may_post_in-disk :
    (o : Option ℕ) (u : ℕ) (K : Disk → Type 0) → Keeps (λ (v : World). K v.disk) (may_post_in o u)
unfolding may_post_in stored_community
may_post_in-disk none u K = Keeps-pure tt
may_post_in-disk (some id) u K =
    Keeps-bind _ _ (Keeps-or_return Sentinel.not_found _ (on_db-disk K _))
      λ community. Keeps-return_if (not (community.creator_id == u)) Sentinel.access_denied

is_valid : (b : Bool) → not b ≡ false → b ≡ true
is_valid true e = refl
is_valid false e = absurd (cc)

module _ (c : Clients) (names : Names) (user_id : ℕ) (text : String) (community_id : Option ℕ)
    (attachment_files photo_files : List File) (w : World) where
  -- The files in the directory, and the post in the tables.
  abbrev pub IsAccepted : Post → World → Type 0
  IsAccepted post w' =
      (c.valid_text text ≡ true)
      × Allows community_id user_id w.db.tables
      × ((d : Disk) × (uploaded_any names attachment_files w.disk ≡ (ok post.attachments, d))
          × (uploaded_any names photo_files d ≡ (ok post.photos, w'.disk)))
      × IsPosted user_id text community_id post.attachments post.photos w.db.tables post.row
          w'.db.tables

  abbrev Files : List String → List String → Disk → Type 0
  Files a b d2 =
      (d : Disk) × (uploaded_any names attachment_files w.disk ≡ (ok a, d))
      × (uploaded_any names photo_files d ≡ (ok b, d2))

  abbrev Valid : Type 0
  Valid = c.valid_text text ≡ true

  stored_post :
      (a b : List String)
      → Meets
          (λ v.
            (v.db.tables ≡ w.db.tables)
            × (Allows community_id user_id w.db.tables × Files a b v.disk × Valid))
          (or_clean
            (λ v. delete_paths b (delete_paths a v))
            Sentinel.db
            (on_db (create_post_row user_id text community_id a b)))
          (λ row v.
            IsPosted user_id text community_id a b w.db.tables row v.db.tables
            × (Allows community_id user_id w.db.tables × Files a b v.disk × Valid))
          (λ v. Back w.db.tables v.db.tables)
  stored_post a b = Meets-or_clean _ _ (Back w.db.tables) _ _ _ (Spares-delete_both b a) (
      Meets-and {K = λ v. Allows community_id user_id w.db.tables × Files a b v.disk × Valid} _
        (Leads-on_db (λ x. x ≡ w.db.tables) _ (Back w.db.tables) _
          (create_post_row-Takes user_id text community_id a b w.db.tables))
        (on_db-disk (λ d. Allows community_id user_id w.db.tables × Files a b d × Valid) _))

  -- From the check of the rights on, with the files uploaded.
  insert-Meets :
      (a b : List String)
      → Meets
          (λ v. (v.db.tables ≡ w.db.tables) × (Files a b v.disk × Valid))
          (may_post_in community_id user_id >>= λ _.
            or_clean
              (λ v. delete_paths b (delete_paths a v))
              Sentinel.db
              (on_db (create_post_row user_id text community_id a b))
            >>= λ row. pure (record { row = row; attachments = a; photos = b }))
          IsAccepted
          (λ v. Back w.db.tables v.db.tables)
  insert-Meets a b =
      let t : PostTables = w.db.tables in
      let K : Disk → Type 0 = λ d. Files a b d × Valid in
      Meets-bind _ _
        (Meets-weaken _ (λ v h. h) (λ _ v h. h) (λ v e. (t.next_id, e))
          (Meets-and {K = λ v. K v.disk} _ (may_post_in-Leads (λ x. x ≡ t) community_id user_id)
            (may_post_in-disk community_id user_id K)))
        λ _.
          Meets-bind _ _
            (Meets-weaken _
              (λ v ((e, allows), k). (e, (subst (Allows community_id user_id) e allows, k.0, k.1)))
              (λ row v q. q) (λ v e. e) (stored_post a b))
            λ row.
              Meets-pure _
                λ v (posted_row, (allows, files, valid)). (valid, allows, files, posted_row)

  create_post-Meets :
      Meets
        (λ v. v ≡ w)
        (create_post c names user_id text community_id attachment_files photo_files)
        IsAccepted
        (λ v. Back w.db.tables v.db.tables)
  unfolding create_post
  create_post-Meets =
      let t : PostTables = w.db.tables in
      let same : (v : World) → v ≡ w → v.db.tables ≡ t = λ v e. ap (λ (x : World). x.db.tables) e in
      Meets-bind _ _
        (Meets-return_if (not (c.valid_text text)) Sentinel.invalid_input
          λ v e. (t.next_id, same v e))
        λ _.
          Meets-bind _ _
            (Meets-weaken _
              (λ v (e, fine).
                (same v e, (ap (λ (x : World). x.disk) e, is_valid (c.valid_text text) fine)))
              (λ a v q. q) (λ v e. (t.next_id, e))
              (upload_any-Meets t names attachment_files (λ v. v) (λ d. (d ≡ w.disk) × Valid)
                (Spares-nothing PostTables)))
            λ a.
              Meets-bind _ _
                (Meets-weaken _
                  (λ v (e, d, (start, valid), ran).
                    (e, (ap (uploaded_any names attachment_files) (sym start) ∙ ran, valid)))
                  (λ b v q. q) (λ v e. (t.next_id, e))
                  (upload_any-Meets t names photo_files (delete_paths a)
                    (λ d. (uploaded_any names attachment_files w.disk ≡ (ok a, d)) × Valid)
                    (Spares-delete_paths a)))
                λ b.
                  Meets-weaken _ (λ v (e, d, (ran, valid), ran'). (e, ((d, ran, ran'), valid)))
                    (λ post v q. q) (λ v q. q) (insert-Meets a b)

  -- In any environment: if `CreatePost` succeeds, then the text was valid, the post is for no community
  -- or for one whose creator the user is, its attachments and photos are the names under which the
  -- uploads have put its files, and the tables have one new post with the next id and the rows of
  -- its attachments and photos, in order, and are otherwise as they were; if it fails, no row has
  -- changed.
  pub create_post-IsOutcome :
      Lands IsAccepted
        (λ v. Back w.db.tables v.db.tables)
        (create_post c names user_id text community_id attachment_files photo_files w)
  create_post-IsOutcome = create_post-Meets.at w refl
