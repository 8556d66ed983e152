-- ===== src/Post/Refusals.antt =====
-- What a request to change the post of another user leaves: everything.
use slps_team.Prelude.{
  ℕ, String, ap, sym, ◌∙◌, arith, ◌≡◌, refl, true, false, not, ◌==◌, List, Option, none, some,
  Bool-cases, inl, inr,
}
use slps_team.Flow.{Result, ok, err, handled, flow_steps}
use slps_team.Flow.Meets.{Lands, Meets-bind, Meets-pure, Meets-raise, Meets-Keeps, Meets-weaken}
use slps_team.Sql.{Db}
use slps_team.Sql.Meets.{Takes, Takes-query, Takes-wrap_error}
use slps_team.Uploads.{File, Names}
use slps_team.Backend.{on_db_run}
use slps_team.Post.{PostRow, PostDb, PostTables}
use slps_team.Post.Table.{Media, joined, joined_post, select_post}
use slps_team.Post.Store.{get_post_by_id, get_media, with_media, post_or_not_found}
use slps_team.Post.Service.{World, Clients, no_post_or_db, existing_post, update_post, delete_post}
use slps_team.Post.Requests.{get_media_keeps}

-- The call has failed, and neither the tables nor the directory have changed.
abbrev pub IsRefused : World → Result (Unit {0}) × World → Type 0
IsRefused w (ok a, w') = ⊥
IsRefused w (err e, w') = (w'.db.tables ≡ w.db.tables) × (w'.disk ≡ w.disk)

module _ (user_id id : ℕ) (t : PostTables) (row : PostRow)
    (there : select_post id t.posts ≡ some row) where
  -- A post of the row's author, in the tables as they were.
  abbrev IsAuthors : PostDb → PostTables → Type 0
  IsAuthors p v = (v ≡ t) × (p.author_id ≡ row.author_id)

  -- The tables as they were, and what was found in them.
  abbrev Finds : Option PostDb → PostTables → Type 0
  Finds found v = (v ≡ t) × (some (joined user_id t row) ≡ found)

  media-Takes : (p : PostDb) → Takes (Finds (some p)) (with_media p) IsAuthors (λ v. v ≡ t)
  unfolding with_media
  media-Takes p =
      Meets-bind _ _ (kept Media.attachment)
        λ fs. Meets-bind _ _ (kept Media.photo) λ gs. Meets-pure _ λ db h. (h.0, found_author h.1)
    where
      kept :
          (m : Media)
          → Takes (Finds (some p)) (get_media m p.id) (λ fs. Finds (some p)) (λ v. v ≡ t)
      kept m =
          Meets-weaken _ (λ db h. h) (λ fs db h. h) (λ db h. h.0)
            (Meets-Keeps _ (get_media_keeps (Finds (some p)) m p.id))

      some_inj : (x y : PostDb) → ◌≡◌ {A = Option PostDb} (some x) (some y) → x ≡ y
      some_inj x y e = cc

      found_author :
          ◌≡◌ {A = Option PostDb} (some (joined user_id t row)) (some p)
          → p.author_id ≡ row.author_id
      found_author e = ap (λ (q : PostDb). q.author_id) (sym (some_inj _ _ e))

  loaded-Takes :
      (found : Option PostDb)
      → Takes (Finds found) (post_or_not_found found) (λ p. Finds (some p)) (λ v. v ≡ t)
  loaded-Takes none = Meets-raise _ λ db h. h.0
  loaded-Takes (some p) = Meets-pure p λ db h. h

  found_row :
      (v : PostTables) (found : Option PostDb)
      → v ≡ t
      → ◌≡◌ {A = Option (Option PostDb)}
          (some (joined_post user_id v (select_post id v.posts)))
          (some found)
      → Finds found v
  found_row v found h e = (
    h,
    ap (joined_post user_id t) (sym there)
        ∙ ap (λ (x : PostTables). joined_post user_id x (select_post id x.posts)) (sym h)
        ∙ inner _ _ e,
  )
    where
      inner : (x y : Option PostDb) → ◌≡◌ {A = Option (Option PostDb)} (some x) (some y) → x ≡ y
      inner x y e = cc

  read-Takes : Takes (λ v. v ≡ t) (get_post_by_id user_id id) IsAuthors (λ v. v ≡ t)
  unfolding get_post_by_id
  read-Takes =
      Meets-bind _ _
        (Takes-wrap_error (λ v. v ≡ t) Finds (λ v. v ≡ t) "failed to get post" _
          (Takes-query (λ v. v ≡ t) Finds (λ v. v ≡ t)
            (λ v. some (joined_post user_id v (select_post id v.posts))) (λ v h. h) found_row))
        λ found. Meets-bind _ _ (loaded-Takes found) λ p. media-Takes p

module _ (user_id id : ℕ) (w : World) (row : PostRow)
    (there : select_post id w.db.tables.posts ≡ some row)
    (other : (row.author_id == user_id) ≡ false) where
  existing_run :
      (x : Result PostDb × Db PostTables)
      → get_post_by_id user_id id w.db ≡ x
      → existing_post user_id id w ≡ handled no_post_or_db (x.0, record w { db = x.1 })
  unfolding existing_post
  existing_run x ran = ap (handled no_post_or_db) (on_db_run (get_post_by_id user_id id) w x ran)

  -- The outcome of reading the post decides.
  delete_by :
      (x : Result PostDb × Db PostTables)
      → get_post_by_id user_id id w.db ≡ x
      → Lands
          (λ p db. IsAuthors user_id id w.db.tables row there p db.tables)
          (λ db. db.tables ≡ w.db.tables)
          x
      → IsRefused w (delete_post id user_id w)
  unfolding delete_post
  delete_by (err e, db) ran same = simp (existing_run _ ran, flow_steps) (same, refl)
  delete_by (ok p, db) ran (same, author) =
      let away : not (p.author_id == user_id) ≡ true = ground (arith, author, other) in
      simp (existing_run _ ran, away, flow_steps) (same, refl)

  -- While a request is refused, no file has been read.
  update_by :
      (c : Clients) (names : Names) (text : String) (fs gs : List File)
      (x : Result PostDb × Db PostTables)
      → c.valid_text text ≡ true
      → get_post_by_id user_id id w.db ≡ x
      → Lands
          (λ p db. IsAuthors user_id id w.db.tables row there p db.tables)
          (λ db. db.tables ≡ w.db.tables)
          x
      → IsRefused w (update_post c names id user_id text fs gs w)
  unfolding update_post
  update_by c names text fs gs (err e, db) fine ran same =
      simp (fine, existing_run _ ran, flow_steps) (same, refl)
  update_by c names text fs gs (ok p, db) fine ran (same, author) =
      let away : not (p.author_id == user_id) ≡ true = ground (arith, author, other) in
      simp (fine, existing_run _ ran, away, flow_steps) (same, refl)

  update_invalid :
      (c : Clients) (names : Names) (text : String) (fs gs : List File)
      → c.valid_text text ≡ false
      → IsRefused w (update_post c names id user_id text fs gs w)
  unfolding update_post
  update_invalid c names text fs gs bad = simp (bad, flow_steps) (refl, refl)

-- In any environment, for a post in the tables whose author is another user: a request to delete it
-- or to update it, with whatever text and files, fails, and leaves all tables and the whole directory
-- of files as they were.
pub others_post-IsRefused :
    (c : Clients) (names : Names) (user_id id : ℕ) (text : String) (fs gs : List File) (w : World)
    (row : PostRow)
    → select_post id w.db.tables.posts ≡ some row
    → (row.author_id == user_id) ≡ false
    → IsRefused w (delete_post id user_id w)
      × IsRefused w (update_post c names id user_id text fs gs w)
others_post-IsRefused c names user_id id text fs gs w row there other =
    let read = (read-Takes user_id id w.db.tables row there).at w.db refl in
    (
      delete_by user_id id w row there other _ refl read,
      elim (Bool-cases (c.valid_text text)) [
        | inl fine ↦ update_by user_id id w row there other c names text fs gs _ fine refl read
        | inr bad ↦ update_invalid user_id id w row there other c names text fs gs bad
      ],
    )
