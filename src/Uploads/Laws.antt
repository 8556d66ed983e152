-- ===== src/Uploads/Laws.antt =====
-- All or nothing but a part: what an upload of several files leaves in the directory.
use slps_team.Prelude.{
  ℕ, suc, ◌+◌, ◌≤◌, ◌<◌, ◌≢◌, length, String, ◌≡◌, refl, ap, sym, subst, ◌∙◌, arith, Bool, true,
  false, ◌||◌, List, [], ◌∷◌, ◌++◌, any, Option, none, some, if◌then◌else◌, Bool-cases, inl, inr,
}
use text.Mathlib.TextLemmas.{append_inj}
use slps_team.Prelude.Strings.{equals, equals_sound, equals_complete, equals_differ}
use mathlib.Core.List.{append_assoc, append-nil}
use slps_team.Flow.{Result, ok, err, ignoring}
use slps_team.Uploads.{
  File, Names, Disk, with_file, with_torn, delete_file, delete_each, name_of, upload_file,
  upload_rest, upload_files,
}

abbrev pub is_named : List String → String → Bool
is_named names n = any (λ name. equals n name) names

-- The next `k` names are not in the directory, and no two of them have the same UUID.
pub record IsFresh (names : Names) (d : Disk) (k : ℕ) : Type 0 where
  pub fresh :
      (n : ℕ) (file : File) → d.drawn ≤ n → n < d.drawn + k → d.files (name_of names n file) ≡ none
  pub distinct : (n m : ℕ) → d.drawn ≤ m → m < n → n < d.drawn + k → names.uuid n ≢ names.uuid m

-- Every removal works.
abbrev pub IsRemovable : Disk → Type 0
IsRemovable d = (name : String) → d.remove_fails name ≡ false

delete_file_run :
    (name : String) (d : Disk)
    → d.remove_fails name ≡ false
    → ignoring (delete_file name) d ≡ record d { files = with_file name none d.files }
unfolding delete_file
delete_file_run name d works = rw (works, ignoring) refl

delete_each_lem :
    (done : List String) (d : Disk)
    → IsRemovable d
    → (n : String) → (delete_each done d).files n ≡ (if is_named done n then none else d.files n)
unfolding delete_each
delete_each_lem [] d works n = refl
delete_each_lem (name ∷ done) d works n =
    ap (λ (d' : Disk). (delete_each done d').files n) (delete_file_run name d (works name))
    ∙ delete_each_lem done (record d { files = with_file name none d.files }) works n
    ∙ ground arith

is_named-append :
    (done : List String) (name n : String)
    → is_named (done ++ name ∷ []) n ≡ (is_named done n || equals n name)
is_named-append [] name n = ground arith
is_named-append (x ∷ done) name n = ground (arith, is_named-append done name n)

abbrev pub drawn_names : Names → ℕ → List File → List String
drawn_names names n [] = []
drawn_names names n (file ∷ files) = name_of names n file ∷ drawn_names names (suc n) files

-- Each file is in the directory under its name.
abbrev pub AreStored : List String → List File → (String → Option String) → Type 0
AreStored (name ∷ done) (file ∷ files) dir =
    (dir name ≡ some file.content) × AreStored done files dir
AreStored [] [] dir = Unit
AreStored _ _ dir = ⊥

-- Every file is as before, but that there may be one more under a name that was not taken.
abbrev pub IsSpared : (String → Option String) → (String → Option String) → Type 0
IsSpared start dir =
    (torn : String) × (start torn ≡ none) × ((n : String) → equals n torn ≡ false → dir n ≡ start n)

-- All the files are there and no other has changed, or the old files are as they were.
abbrev pub IsAllOrNone :
    Names → ℕ → (String → Option String) → List File → Result (List String) × Disk → Type 0
IsAllOrNone names k start files (ok done, d) =
    (done ≡ drawn_names names k files)
    × AreStored done files d.files
    × ((n : String) → is_named done n ≡ false → d.files n ≡ start n)
IsAllOrNone names k start files (err e, d) = IsSpared start d.files

-- What the loop has made of the directory so far.
record IsUpload (names : Names) (start : String → Option String) (last : ℕ) (done : List String)
    (d : Disk) : Type 0 where
  clear : (n : ℕ) (file : File) → d.drawn ≤ n → n < last → start (name_of names n file) ≡ none
  distinct : (n m : ℕ) → d.drawn ≤ m → m < n → n < last → names.uuid n ≢ names.uuid m
  early :
      (n : ℕ) (file : File) → d.drawn ≤ n → n < last → is_named done (name_of names n file) ≡ false
  fresh : (n : String) → is_named done n ≡ true → start n ≡ none
  others : (n : String) → is_named done n ≡ false → d.files n ≡ start n
  works : IsRemovable d

module _ (names : Names) (start : String → Option String) (last : ℕ) where
  abbrev IsRest : List File → List String → Disk → Result (List String) × Disk → Type 0
  IsRest files done d (ok r, d') =
      (r ≡ done ++ drawn_names names d.drawn files)
      × AreStored (drawn_names names d.drawn files) files d'.files
      × ((n : String) → is_named r n ≡ false → d'.files n ≡ start n)
      × ((n : String) → is_named done n ≡ true → d'.files n ≡ d.files n)
  IsRest files done d (err e, d') = IsSpared start d'.files

  module _ (file : File) (done : List String) (d : Disk) (h : IsUpload names start last done d)
      (room : d.drawn < last) where
    abbrev name : String
    name = name_of names d.drawn file

    same_uuid : (n : ℕ) (f : File) → name_of names n f ≡ name → names.uuid n ≡ names.uuid d.drawn
    same_uuid n f e = (append_inj e (names.uuid_length n ∙ sym (names.uuid_length d.drawn))).0

    abbrev after_write : Disk
    after_write = record d {
      files = with_file name (some file.content) d.files;
      drawn = suc d.drawn;
    }

    write_grows : IsUpload names start last (done ++ name ∷ []) after_write
    write_grows = record {
      clear = λ n f le lt. h.clear n f (omega (arith, le)) lt;
      distinct = λ n m le mn lt. h.distinct n m (omega (arith, le)) mn lt;
      early = λ n f le lt.
          let other : equals (name_of names n f) name ≡ false =
            equals_differ _ _
              (λ e. h.distinct n d.drawn (omega arith) (omega (arith, le)) lt (same_uuid n f e)) in
          is_named-append done name (name_of names n f)
          ∙ ground (arith, h.early n f (omega (arith, le)) lt, other);
      fresh = λ n e. elim (Bool-cases (equals n name)) [
        | inl it ↦ ap start (equals_sound n name it) ∙ h.clear d.drawn file (omega arith) room
        | inr other ↦ h.fresh n (ground (arith, e, other, is_named-append done name n))
      ];
      others = λ n e. ground (arith, e, is_named-append done name n, h.others n);
      works = h.works;
    }

    IsRest-after_write :
        (files : List File) (x : Result (List String) × Disk)
        → IsRest files (done ++ name ∷ []) after_write x
        → IsRest (file ∷ files) done d x
    IsRest-after_write files (ok r, d') (whole, stored, others, kept) = (
      whole ∙ append_assoc done (name ∷ []) (drawn_names names (suc d.drawn) files),
      (
        kept name (is_named-append done name name ∙ ground (arith, equals_complete name name refl))
            ∙ ground (arith, equals_complete name name refl),
        stored,
      ),
      others,
      λ n e.
          kept n (is_named-append done name n ∙ ground (arith, e))
          ∙ elim (Bool-cases (equals n name)) [
            | inl it ↦
                let out : is_named done n ≡ false =
                  ap (is_named done) (equals_sound n name it)
                  ∙ h.early d.drawn file (omega arith) room in
                absurd (cc)
            | inr other ↦ ground (arith, other)
          ],
    )
    IsRest-after_write files (err e, d') same = same

    -- The directory of a failed write, without the files that came before it.
    torn_other :
        (part : Option String) (n : String)
        → equals n name ≡ false
        → with_torn name part d.files n ≡ d.files n
    torn_other none n e = refl
    torn_other (some part) n e = ground (arith, e)

    abbrev after_failure : Disk
    after_failure = record d {
      files = with_torn name (d.torn d.drawn) d.files;
      drawn = suc d.drawn;
    }

    write_failed : IsSpared start (delete_each done after_failure).files
    write_failed = (
      name,
      h.clear d.drawn file (omega arith) room,
      λ n e.
          delete_each_lem done after_failure h.works n
          ∙ ground (arith, torn_other (d.torn d.drawn) n e, h.fresh n, h.others n),
    )

  upload_rest-IsRest :
      (files : List File) (done : List String) (d : Disk)
      → IsUpload names start last done d
      → d.drawn + length files ≤ last
      → IsRest files done d (upload_rest names files done d)
  unfolding upload_rest upload_file
  upload_rest-IsRest [] done d h room = (sym (append-nil done), tt, h.others, λ n e. refl)
  upload_rest-IsRest (file ∷ files) done d h room = elim (Bool-cases (d.write_fails d.drawn)) [
    | inl fails ↦ rw fails (write_failed file done d h (omega (arith, room)))
    | inr works ↦ rw works (
        IsRest-after_write file done d h (omega (arith, room)) files _ (
          upload_rest-IsRest files _ _ (write_grows file done d h (omega (arith, room)))
            (omega (arith, room))))
  ]

-- For a directory where the next names, one for each file, are not taken and have different UUIDs,
-- and where every removal works, whichever writes fail and whatever they leave behind: if
-- `UploadFiles` succeeds, the result is one new name for each file, in order, each file's content is
-- under its name, and all other files are as before; if it fails, all files are as before, but that
-- there may be one file more, under a name that was not taken.
pub upload_files-IsAllOrNone :
    (names : Names) (files : List File) (d : Disk)
    → IsFresh names d (length files)
    → IsRemovable d
    → IsAllOrNone names d.drawn d.files files (upload_files names files d)
unfolding upload_files
upload_files-IsAllOrNone names files d free works = outcome _ (
    upload_rest-IsRest names d.files (d.drawn + length files) files [] d
      (record {
        clear = free.fresh;
        distinct = free.distinct;
        early = λ n f le lt. refl;
        fresh = λ n e. absurd (cc);
        others = λ n e. refl;
        works = works;
      })
      (omega arith))
  where
    outcome :
        (x : Result (List String) × Disk)
        → IsRest names d.files (d.drawn + length files) files [] d x
        → IsAllOrNone names d.drawn d.files files x
    outcome (ok r, d') (whole, stored, others, kept) =
        (whole, subst (λ rs. AreStored rs files d'.files) (sym whole) stored, others)
    outcome (err e, d') same = same
