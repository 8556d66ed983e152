-- ===== src/Post/Rows.antt =====
-- What each statement of one user does to the posts of another.
use slps_team.Prelude.{
  ℕ, String, ap, ◌∙◌, sym, arith, ◌≡◌, refl, Bool, true, false, not, ◌&&◌, ◌==◌, ltb, any, all,
  keep, tally, map, List, [], ◌∷◌, ◌++◌, Bool-cases, inl, inr,
}
use slps_team.Post.{PostRow, MediaRow, Post, PostTables}
use slps_team.Post.Table.{is_post, written_by, rewritten, is_media_of, media_row, paths_of}

-- A post with the files of its rows.
abbrev pub with_files : List MediaRow → List MediaRow → PostRow → Post
with_files attachments photos p = record {
  row = p;
  attachments = paths_of p.id attachments;
  photos = paths_of p.id photos;
}

abbrev pub rows_of : ℕ → List PostRow → List PostRow
rows_of o ps = keep (λ p. p.author_id == o) ps

abbrev pub posts_of : ℕ → PostTables → List Post
posts_of o t = map (with_files t.attachments t.photos) (rows_of o t.posts)

abbrev pub distinct_ids : List PostRow → Bool
distinct_ids [] = true
distinct_ids (p ∷ ps) = not (any (is_post p.id) ps) && distinct_ids ps

-- The posts of one author and their files, in a table with distinct ids.
pub record IsKept (o : ℕ) (kept : List Post) (t : PostTables) : Type 0 where
  pub theirs : posts_of o t ≡ kept
  pub ids : distinct_ids t.posts ≡ true
  pub below : all (λ p. ltb p.id t.next_id) t.posts ≡ true

-- No post of `o` has the id.
abbrev pub IsFree : ℕ → ℕ → PostTables → Type 0
IsFree o id t = any (written_by id o) t.posts ≡ false

module _ (id pid : ℕ) where
  pub paths-append :
      (now : ℕ) (path : String) (rows : List MediaRow)
      → (pid == id) ≡ false
      → paths_of pid (rows ++ media_row now id path ∷ []) ≡ paths_of pid rows
  paths-append now path [] e = ground (arith, e)
  paths-append now path (r ∷ rs) e = ground (arith, e, paths-append now path rs e)

  pub paths-keep :
      (b : Bool) (rows : List MediaRow)
      → (b && pid == id) ≡ false
      → paths_of pid (keep (λ r. not (b && is_media_of id r)) rows) ≡ paths_of pid rows
  paths-keep b [] e = refl
  paths-keep b (r ∷ rs) e = ground (arith, e, paths-keep b rs e)

module _ (o : ℕ) where
  -- Changes of the files of another post.
  module _ (id : ℕ) (a a' b b' : List MediaRow)
      (same_a : (pid : ℕ) → (pid == id) ≡ false → paths_of pid a' ≡ paths_of pid a)
      (same_b : (pid : ℕ) → (pid == id) ≡ false → paths_of pid b' ≡ paths_of pid b) where
    pub files_elsewhere :
        (ps : List PostRow)
        → any (written_by id o) ps ≡ false
        → map (with_files a' b') (rows_of o ps) ≡ map (with_files a b) (rows_of o ps)
    files_elsewhere [] e = refl
    files_elsewhere (p ∷ ps) e = elim (Bool-cases (p.author_id == o)) [
      | inl it ↦
          let apart : (p.id == id) ≡ false = ground (arith, e, it) in
          ground (arith, it, e, same_a p.id apart, same_b p.id apart, files_elsewhere ps)
      | inr not_theirs ↦ ground (arith, not_theirs, e, files_elsewhere ps)
    ]

  module _ (u : ℕ) (other : not (u == o) ≡ true) where
    pub rows-rewritten :
        (id now : ℕ) (text : String) (ps : List PostRow)
        → rows_of o (map (rewritten id u text now) ps) ≡ rows_of o ps
    rows-rewritten id now text [] = refl
    rows-rewritten id now text (p ∷ ps) = ground (arith, other, rows-rewritten id now text ps)

    pub rows-away :
        (id : ℕ) (ps : List PostRow)
        → rows_of o (keep (λ p. not (written_by id u p)) ps) ≡ rows_of o ps
    rows-away id [] = refl
    rows-away id (p ∷ ps) = ground (arith, other, rows-away id ps)

    pub none_of :
        (id : ℕ) (ps : List PostRow)
        → any (is_post id) ps ≡ false
        → any (written_by id o) ps ≡ false
    none_of id [] e = refl
    none_of id (p ∷ ps) e = ground (arith, e, none_of id ps)

    -- An id belongs to one author.
    pub found-free :
        (id : ℕ) (ps : List PostRow)
        → distinct_ids ps ≡ true
        → (tally (written_by id u) ps == 0) ≡ false
        → any (written_by id o) ps ≡ false
    found-free id [] e f = refl
    found-free id (p ∷ ps) e f = elim (Bool-cases (p.id == id)) [
      | inl it ↦
          let same : p.id ≡ id = ground (arith, it) in
          let apart : any (is_post p.id) ps ≡ false = ground (arith, e) in
          let rest : any (written_by id o) ps ≡ false =
            none_of id ps (ap (λ i. any (is_post i) ps) (sym same) ∙ apart) in
          let alone : any (written_by id u) ps ≡ false =
            no_writer id ps (ap (λ i. any (is_post i) ps) (sym same) ∙ apart) in
          ground (arith, it, rest, other, f, no_tally id ps alone)
      | inr away ↦ ground (arith, away, e, f, found-free id ps)
    ]
      where
        no_writer :
            (i : ℕ) (qs : List PostRow)
            → any (is_post i) qs ≡ false
            → any (written_by i u) qs ≡ false
        no_writer i [] h = refl
        no_writer i (q ∷ qs) h = ground (arith, h, no_writer i qs)

        no_tally :
            (i : ℕ) (qs : List PostRow)
            → any (written_by i u) qs ≡ false
            → tally (written_by i u) qs ≡ 0
        no_tally i [] h = refl
        no_tally i (q ∷ qs) h = ground (arith, h, no_tally i qs)

    pub deleted-free :
        (id : ℕ) (ps : List PostRow)
        → distinct_ids ps ≡ true
        → any (written_by id u) ps ≡ true
        → any (written_by id o) ps ≡ false
    deleted-free id ps e f = found-free id ps e (counted ps f)
      where
        counted :
            (qs : List PostRow)
            → any (written_by id u) qs ≡ true
            → (tally (written_by id u) qs == 0) ≡ false
        counted [] h = absurd (cc)
        counted (q ∷ qs) h = ground (arith, h, counted qs)

module _ (id u now : ℕ) (text : String) where
  pub any_id-rewritten :
      (i : ℕ) (ps : List PostRow)
      → any (is_post i) (map (rewritten id u text now) ps) ≡ any (is_post i) ps
  any_id-rewritten i [] = refl
  any_id-rewritten i (p ∷ ps) = ground (arith, any_id-rewritten i ps)

  pub any_writer-rewritten :
      (o i : ℕ) (ps : List PostRow)
      → any (written_by i o) (map (rewritten id u text now) ps) ≡ any (written_by i o) ps
  any_writer-rewritten o i [] = refl
  any_writer-rewritten o i (p ∷ ps) = ground (arith, any_writer-rewritten o i ps)

  pub distinct-rewritten :
      (ps : List PostRow) → distinct_ids (map (rewritten id u text now) ps) ≡ distinct_ids ps
  distinct-rewritten [] = refl
  distinct-rewritten (p ∷ ps) = ground (arith, any_id-rewritten p.id ps, distinct-rewritten ps)

  pub below-rewritten :
      (next : ℕ) (ps : List PostRow)
      → all (λ p. ltb p.id next) (map (rewritten id u text now) ps) ≡ all (λ p. ltb p.id next) ps
  below-rewritten next [] = refl
  below-rewritten next (p ∷ ps) = ground (arith, below-rewritten next ps)

module _ (test : PostRow → Bool) where
  any_id-keep :
      (i : ℕ) (ps : List PostRow)
      → any (is_post i) ps ≡ false
      → any (is_post i) (keep test ps) ≡ false
  any_id-keep i [] e = refl
  any_id-keep i (p ∷ ps) e = ground (arith, e, any_id-keep i ps)

  pub distinct-keep :
      (ps : List PostRow) → distinct_ids ps ≡ true → distinct_ids (keep test ps) ≡ true
  distinct-keep [] e = refl
  distinct-keep (p ∷ ps) e = ground (arith, e, any_id-keep p.id ps, distinct-keep ps)

  pub below-keep :
      (next : ℕ) (ps : List PostRow)
      → all (λ p. ltb p.id next) ps ≡ true
      → all (λ p. ltb p.id next) (keep test ps) ≡ true
  below-keep next [] e = refl
  below-keep next (p ∷ ps) e = ground (arith, e, below-keep next ps)

module _ (next : ℕ) where
  pub no_next :
      (ps : List PostRow) → all (λ p. ltb p.id next) ps ≡ true → any (is_post next) ps ≡ false
  no_next [] e = refl
  no_next (p ∷ ps) e = ground (arith, e, no_next ps)

  pub below_more :
      (more : ℕ) (ps : List PostRow)
      → ltb more next ≡ false
      → all (λ p. ltb p.id next) ps ≡ true
      → all (λ p. ltb p.id more) ps ≡ true
  below_more more [] le e = refl
  below_more more (p ∷ ps) le e = ground (arith, le, e, below_more more ps)
