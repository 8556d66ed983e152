-- ===== src/Post/Posting/Rows.antt =====
-- What `CreatePost` of internal/repository/db/post.go does to the tables.
use Prim.Native.String.{len}
use slps_team.Prelude.{
  ℕ, suc, String, ap, sym, subst, ◌∙◌, ◌≡◌, arith, ◌||◌, ltb, List, [], ◌∷◌, ◌++◌, map, Option,
  some,
}
use mathlib.Core.List.{append_assoc, append-nil}
use slps_team.Flow.{pure, ◌>>=◌}
use slps_team.Flow.Meets.{Meets-bind, Meets-pure, Meets-raise, Meets-if, Meets-weaken}
use slps_team.Sql.{wrap_error, commit_tx}
use slps_team.Sql.Meets.{
  Takes, Takes-wrap_error, Takes-exec, Takes-in_transaction, Takes-begin, Takes-commit_tx,
}
use slps_team.Chat.Text.{is_blank}
use slps_team.Post.{PostRow, MediaRow, PostTables}
use slps_team.Post.Table.{
  Media, media_rows, with_media_rows, media_row, fresh_row, insert_post, insert_media,
}
use slps_team.Post.Store.{undone, empty_path, long_path, save_failure, save_media, create_post_row}

abbrev pub rows_at : ℕ → ℕ → List String → List MediaRow
rows_at now id paths = map (media_row now id) paths

abbrev pub with_more : Media → ℕ → ℕ → List String → PostTables → PostTables
with_more m now id paths t = with_media_rows m (media_rows m t ++ rows_at now id paths) t

-- The tables with a new post and its files.
abbrev pub posted : ℕ → String → Option ℕ → List String → List String → ℕ → PostTables → PostTables
posted author_id text community_id attachments photos now t = record t {
  posts = fresh_row t.next_id author_id community_id text now ∷ t.posts;
  attachments = t.attachments ++ rows_at now t.next_id attachments;
  photos = t.photos ++ rows_at now t.next_id photos;
  next_id = suc t.next_id;
}

-- At most the identity column has moved.
abbrev pub Back : PostTables → PostTables → Type 0
Back t t' = (next : ℕ) × (t' ≡ record t { next_id = next })

more_none : (m : Media) (now id : ℕ) (t : PostTables) → t ≡ with_more m now id [] t
more_none Media.attachment now id t =
    ap (λ (xs : List MediaRow). record t { attachments = xs }) (sym (append-nil t.attachments))
more_none Media.photo now id t =
    ap (λ (xs : List MediaRow). record t { photos = xs }) (sym (append-nil t.photos))

more_cons :
    (m : Media) (now id : ℕ) (path : String) (paths : List String) (t : PostTables)
    → with_more m now id paths (with_more m now id (path ∷ []) t)
      ≡ with_more m now id (path ∷ paths) t
more_cons Media.attachment now id path paths t =
    ap (λ (xs : List MediaRow). record t { attachments = xs })
      (append_assoc t.attachments (rows_at now id (path ∷ [])) (rows_at now id paths))
more_cons Media.photo now id path paths t =
    ap (λ (xs : List MediaRow). record t { photos = xs })
      (append_assoc t.photos (rows_at now id (path ∷ [])) (rows_at now id paths))

insert_media_ran :
    (m : Media) (id : ℕ) (path : String) (now : ℕ) (t : PostTables) (n : ℕ) (t' : PostTables)
    → insert_media m id path now t ≡ some (n, t')
    → t' ≡ with_more m now id (path ∷ []) t
unfolding insert_media
insert_media_ran m id path now t n t' e = ground (arith, e)

save_media-Takes :
    (m : Media) (now id : ℕ) (paths : List String) (t : PostTables)
    → Takes
        (λ x. x ≡ t)
        (save_media m now id paths)
        (λ _ x. x ≡ with_more m now id paths t)
        (λ _. Unit {0})
unfolding save_media
save_media-Takes m now id [] t = Meets-pure tt λ db h. h ∙ more_none m now id t
save_media-Takes m now id (path ∷ paths) t =
    Meets-if (is_blank path) _ _ (Meets-raise (empty_path m) λ db h. tt) (
      Meets-if (ltb (len path) 1 || ltb 512 (len path)) _ _ (Meets-raise (long_path m) λ db h. tt) (
        Meets-bind _ _
          (Takes-wrap_error (λ x. x ≡ t) (λ _ x. x ≡ with_more m now id (path ∷ []) t)
            (λ _. Unit {0}) (save_failure m) _
            (Takes-exec (λ x. x ≡ t) (λ _ x. x ≡ with_more m now id (path ∷ []) t) (λ _. Unit {0}) _
              (λ x h. tt)
              λ _ x n x' h e.
                insert_media_ran m id path now x n x' e ∙ ap (with_more m now id (path ∷ [])) h))
          λ _.
            Meets-weaken _ (λ db h. h) (λ _ db h. h ∙ more_cons m now id path paths t) (λ db h. h)
              (save_media-Takes m now id paths (with_more m now id (path ∷ []) t))))

module _ (author_id : ℕ) (text : String) (community_id : Option ℕ) where
  abbrev pub IsPosted : List String → List String → PostTables → PostRow → PostTables → Type 0
  IsPosted attachments photos t row t' =
      (now : ℕ) × (row ≡ fresh_row t.next_id author_id community_id text now)
      × (t' ≡ posted author_id text community_id attachments photos now t)

  insert_post_ran :
      (now : ℕ) (t : PostTables) (row : PostRow) (t' : PostTables)
      → insert_post author_id text community_id now t ≡ some (row, t')
      → (row ≡ fresh_row t.next_id author_id community_id text now)
        × (t' ≡ record t { posts = row ∷ t.posts; next_id = suc t.next_id })
  unfolding insert_post
  insert_post_ran now t row t' e = (ground (arith, e), ground (arith, e))

  saved :
      (attachments photos : List String) (now : ℕ) (t : PostTables) (row : PostRow)
      (t' : PostTables)
      → row ≡ fresh_row t.next_id author_id community_id text now
      → t'
        ≡ with_more Media.photo now row.id photos (
            with_more Media.attachment now row.id attachments
              (record t { posts = row ∷ t.posts; next_id = suc t.next_id }))
      → t' ≡ posted author_id text community_id attachments photos now t
  saved attachments photos now t row t' e f =
      f
      ∙ ap
          (λ (r : PostRow). with_more Media.photo now r.id photos (
            with_more Media.attachment now r.id attachments
              (record t { posts = r ∷ t.posts; next_id = suc t.next_id })))
          e

  pub create_post_row-Takes :
      (attachments photos : List String) (t : PostTables)
      → Takes
          (λ x. x ≡ t)
          (create_post_row author_id text community_id attachments photos)
          (IsPosted attachments photos t)
          (Back t)
  unfolding create_post_row
  create_post_row-Takes attachments photos t =
      Takes-in_transaction (λ x. x ≡ t) (IsPosted attachments photos t) (Back t) undone
        (λ before x. Unit {0}) _
        (λ before x h _. (x.next_id, ap (λ (y : PostTables). record y { next_id = x.next_id }) h))
        λ before h.
          Meets-bind _ _ (Takes-begin {P = λ x. x ≡ before} {E = λ _. Unit {0}} (λ x e. tt) _)
            λ now.
              Meets-bind _ _
                (Takes-wrap_error (λ x. x ≡ before) (Inserted now) (λ _. Unit {0})
                  "failed to create post" _
                  (Takes-exec (λ x. x ≡ before) (Inserted now) (λ _. Unit {0}) _ (λ x e. tt)
                    λ _ x row x' e ran.
                      subst (λ (y : PostTables). Inserted_from y now row x') (e ∙ h)
                        (insert_post_ran now x row x' ran)))
                λ row. record { at = λ db (e, f). (rest now row e).at db f }
    where
      Inserted_from : PostTables → ℕ → PostRow → PostTables → Type 0
      Inserted_from y now row x =
          (row ≡ fresh_row y.next_id author_id community_id text now)
          × (x ≡ record y { posts = row ∷ y.posts; next_id = suc y.next_id })

      Inserted : ℕ → PostRow → PostTables → Type 0
      Inserted now row x = Inserted_from t now row x

      rest :
          (now : ℕ) (row : PostRow)
          → row ≡ fresh_row t.next_id author_id community_id text now
          → Takes
              (λ x. x ≡ record t { posts = row ∷ t.posts; next_id = suc t.next_id })
              (save_media Media.attachment now row.id attachments >>= λ _.
                save_media Media.photo now row.id photos >>= λ _.
                wrap_error "failed to commit transaction" commit_tx >>= λ _. pure row)
              (IsPosted attachments photos t)
              (λ _. Unit {0})
      rest now row e =
          Meets-bind _ _ (save_media-Takes Media.attachment now row.id attachments _) λ _.
            Meets-bind _ _ (save_media-Takes Media.photo now row.id photos _) λ _.
              Meets-bind _ _ (Takes-commit_tx {E = λ _. Unit {0}} (λ x k. tt) _) λ _.
                Meets-pure row λ db f. (now, e, saved attachments photos now t row db.tables e f)
