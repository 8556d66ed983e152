-- ===== src/Comment/Rows.antt =====
-- What each statement of one user does to the comments of another.
use slps_team.Prelude.{
  is_one_of, ℕ, zero, suc, String, ap, ◌∙◌, arith, ◌≡◌, refl, Bool, true, false, not, ◌&&◌, ◌||◌,
  ◌==◌, ltb, any, all, keep, map, length, List, [], ◌∷◌, Option, none, some, Bool-cases, inl, inr,
}
use slps_team.Comment.{Comment, CommentTables}
use slps_team.Comment.Table.{
  written_by, insert_comment, rewritten, update_comments, answers_one_of, replies_to, cascade,
  delete_comments,
}

abbrev pub has_id : ℕ → Comment → Bool
has_id id c = c.id == id

abbrev pub distinct_ids : List Comment → Bool
distinct_ids [] = true
distinct_ids (c ∷ cs) = not (any (has_id c.id) cs) && distinct_ids cs

abbrev pub has_no_parent : Option ℕ → Bool
has_no_parent none = true
has_no_parent (some p) = false

-- No row has the next id, and none is a reply.
abbrev pub is_plain : ℕ → Comment → Bool
is_plain next c = ltb c.id next && has_no_parent c.parent_id

abbrev pub comments_of : ℕ → List Comment → List Comment
comments_of o cs = keep (λ c. c.author_id == o) cs

-- The comments of one author, in a table with distinct ids and no replies.
pub record IsKept (o : ℕ) (kept : List Comment) (t : CommentTables) : Type 0 where
  pub theirs : comments_of o t.comments ≡ kept
  pub ids : distinct_ids t.comments ≡ true
  pub plain : all (is_plain t.next_id) t.comments ≡ true

module _ (next : ℕ) where
  no_next : (cs : List Comment) → all (is_plain next) cs ≡ true → any (has_id next) cs ≡ false
  no_next [] e = refl
  no_next (c ∷ cs) e = ground (arith, e, no_next cs)

  plain_next :
      (cs : List Comment) → all (is_plain next) cs ≡ true → all (is_plain (suc next)) cs ≡ true
  plain_next [] e = refl
  plain_next (c ∷ cs) e = ground (arith, e, plain_next cs)

  -- Where nothing is a reply, a round reaches nothing new.
  one_round :
      (i : ℕ) (ids : List ℕ) (cs : List Comment)
      → all (is_plain next) cs ≡ true
      → is_one_of ids i ≡ false
      → is_one_of
          (map (λ (c : Comment). c.id) (keep (λ c. is_one_of ids c.id || replies_to ids c) cs))
          i
        ≡ false
  one_round i ids [] e out = refl
  one_round i ids (c ∷ cs) e out = elim (Bool-cases (c.id == i)) [
    | inl it ↦
        let same : c.id ≡ i = ground (arith, it) in
        let away : is_one_of ids c.id ≡ false = ap (is_one_of ids) same ∙ out in
        let single : has_no_parent c.parent_id ≡ true = ground (arith, e) in
        ground (arith, e, away, parentless c.parent_id ids single, one_round i ids cs)
    | inr other ↦ ground (arith, e, other, out, one_round i ids cs)
  ]
    where
      parentless :
          (p : Option ℕ) (js : List ℕ) → has_no_parent p ≡ true → answers_one_of js p ≡ false
      parentless none js h = refl
      parentless (some q) js h = absurd (cc)

  rounds :
      (n i : ℕ) (ids : List ℕ) (cs : List Comment)
      → all (is_plain next) cs ≡ true
      → is_one_of ids i ≡ false
      → is_one_of (cascade n cs ids) i ≡ false
  unfolding cascade
  rounds zero i ids cs e out = out
  rounds (suc n) i ids cs e out = rounds n i _ cs e (one_round i ids cs e out)

module _ (o u : ℕ) (other : not (u == o) ≡ true) where
  -- Another comment of `u` with the id of a comment of `o`.
  abbrev clashes : List Comment → Comment → Bool
  clashes cs c = any (λ d. d.id == c.id && d.author_id == u) cs

  abbrev is_clear : List Comment → Comment → Bool
  is_clear cs c = not (c.author_id == o) || not (clashes cs c)

  no_clash : (c : Comment) (cs : List Comment) → any (has_id c.id) cs ≡ false → clashes cs c ≡ false
  no_clash c [] e = refl
  no_clash c (d ∷ ds) e = ground (arith, e, no_clash c ds)

  clear_more :
      (c : Comment) (cs xs : List Comment)
      → any (has_id c.id) xs ≡ false
      → all (is_clear cs) xs ≡ true
      → all (is_clear (c ∷ cs)) xs ≡ true
  clear_more c cs [] e h = refl
  clear_more c cs (x ∷ xs) e h = ground (arith, e, h, clear_more c cs xs)

  all_clear : (cs : List Comment) → distinct_ids cs ≡ true → all (is_clear cs) cs ≡ true
  all_clear [] e = refl
  all_clear (c ∷ cs) e =
      let apart : any (has_id c.id) cs ≡ false = ground (arith, e) in
      let rest : all (is_clear cs) cs ≡ true = all_clear cs (ground (arith, e)) in
      ground (arith, other, no_clash c cs apart, clear_more c cs cs apart rest)

  start_out :
      (id i : ℕ) (cs : List Comment)
      → any (λ d. d.id == i && d.author_id == u) cs ≡ false
      → is_one_of (map (λ (c : Comment). c.id) (keep (written_by id u) cs)) i ≡ false
  start_out id i [] e = refl
  start_out id i (c ∷ cs) e = ground (arith, e, start_out id i cs)

  abbrev gone : ℕ → List Comment → List ℕ
  gone id cs = cascade (length cs) cs (map (λ (c : Comment). c.id) (keep (written_by id u) cs))

  theirs_kept :
      (id next : ℕ) (cs xs : List Comment)
      → all (is_plain next) cs ≡ true
      → all (is_clear cs) xs ≡ true
      → comments_of o (keep (λ c. not (is_one_of (gone id cs) c.id)) xs) ≡ comments_of o xs
  theirs_kept id next cs [] plain e = refl
  theirs_kept id next cs (x ∷ xs) plain e = elim (Bool-cases (x.author_id == o)) [
    | inl it ↦
        let free : clashes cs x ≡ false = ground (arith, e, it) in
        let stays : is_one_of (gone id cs) x.id ≡ false =
          rounds next (length cs) x.id _ cs plain (start_out id x.id cs free) in
        ground (arith, it, stays, e, theirs_kept id next cs xs plain)
    | inr not_theirs ↦ ground (arith, not_theirs, e, theirs_kept id next cs xs plain)
  ]

  theirs-rewritten :
      (id now : ℕ) (text : String) (cs : List Comment)
      → comments_of o (map (rewritten id u text now) cs) ≡ comments_of o cs
  theirs-rewritten id now text [] = refl
  theirs-rewritten id now text (c ∷ cs) = ground (arith, other, theirs-rewritten id now text cs)

module _ (id u now : ℕ) (text : String) where
  any_id-rewritten :
      (i : ℕ) (cs : List Comment)
      → any (has_id i) (map (rewritten id u text now) cs) ≡ any (has_id i) cs
  any_id-rewritten i [] = refl
  any_id-rewritten i (c ∷ cs) = ground (arith, any_id-rewritten i cs)

  distinct-rewritten :
      (cs : List Comment) → distinct_ids (map (rewritten id u text now) cs) ≡ distinct_ids cs
  distinct-rewritten [] = refl
  distinct-rewritten (c ∷ cs) = ground (arith, any_id-rewritten c.id cs, distinct-rewritten cs)

  plain-rewritten :
      (next : ℕ) (cs : List Comment)
      → all (is_plain next) (map (rewritten id u text now) cs) ≡ all (is_plain next) cs
  plain-rewritten next [] = refl
  plain-rewritten next (c ∷ cs) = ground (arith, plain-rewritten next cs)

module _ (test : Comment → Bool) where
  any_id-keep :
      (i : ℕ) (cs : List Comment)
      → any (has_id i) cs ≡ false
      → any (has_id i) (keep test cs) ≡ false
  any_id-keep i [] e = refl
  any_id-keep i (c ∷ cs) e = ground (arith, e, any_id-keep i cs)

  distinct-keep : (cs : List Comment) → distinct_ids cs ≡ true → distinct_ids (keep test cs) ≡ true
  distinct-keep [] e = refl
  distinct-keep (c ∷ cs) e = ground (arith, e, any_id-keep c.id cs, distinct-keep cs)

  plain-keep :
      (next : ℕ) (cs : List Comment)
      → all (is_plain next) cs ≡ true
      → all (is_plain next) (keep test cs) ≡ true
  plain-keep next [] e = refl
  plain-keep next (c ∷ cs) e = ground (arith, e, plain-keep next cs)

module _ (o u : ℕ) (other : not (u == o) ≡ true) (kept : List Comment) where
  pub insert-IsKept :
      (post_id : ℕ) (text : String) (now : ℕ) (t : CommentTables) (row : Comment)
      (t' : CommentTables)
      → IsKept o kept t
      → insert_comment post_id u text now t ≡ some (row, t')
      → IsKept o kept t'
  unfolding insert_comment
  insert-IsKept post_id text now t row t' h e = record {
    theirs = ground (arith, other, h.theirs, e);
    ids = ground (arith, h.ids, e, no_next t.next_id t.comments h.plain);
    plain = ground (arith, e, plain_next t.next_id t.comments h.plain);
  }

  pub update-IsKept :
      (id : ℕ) (text : String) (now : ℕ) (t : CommentTables) (n : ℕ) (t' : CommentTables)
      → IsKept o kept t
      → update_comments id u text now t ≡ some (n, t')
      → IsKept o kept t'
  unfolding update_comments
  update-IsKept id text now t n t' h e = record {
    theirs = ground (arith, h.theirs, e, theirs-rewritten o u other id now text t.comments);
    ids = ground (arith, h.ids, e, distinct-rewritten id u now text t.comments);
    plain = ground (arith, h.plain, e, plain-rewritten id u now text t.next_id t.comments);
  }

  pub delete-IsKept :
      (id : ℕ) (t : CommentTables) (n : ℕ) (t' : CommentTables)
      → IsKept o kept t
      → delete_comments id u t ≡ some (n, t')
      → IsKept o kept t'
  unfolding delete_comments
  delete-IsKept id t n t' h e =
      let stays : Comment → Bool = λ c. not (is_one_of (gone o u other id t.comments) c.id) in
      let moved : t'.comments ≡ keep stays t.comments = ground (arith, e) in
      let next : t'.next_id ≡ t.next_id = ground (arith, e) in
      record {
        theirs = rw moved (
            theirs_kept o u other id t.next_id t.comments t.comments h.plain
              (all_clear o u other t.comments h.ids)
            ∙ h.theirs);
        ids = rw moved (distinct-keep stays t.comments h.ids);
        plain = rw (moved, next) (plain-keep stays t.next_id t.comments h.plain);
      }
