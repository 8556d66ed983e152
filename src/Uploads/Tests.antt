-- ===== src/Uploads/Tests.antt =====
-- Runs of the uploads.
use Prim.Native.String.{count}
use slps_team.Prelude.Strings.{equals, equals_complete}
use slps_team.Prelude.{
  some, ap, sym, ◌∙◌, arith, ◌≤◌, ◌<◌, ◌≢◌, if◌then◌else◌, ℕ, String, Bool, true, false, ◌==◌, ◌≡◌,
  refl, List, [], ◌∷◌, none,
}
use slps_team.Uploads.{File, Names, Disk, upload_files}
use slps_team.Uploads.Laws.{IsAllOrNone, upload_files-IsAllOrNone}

abbrev two_files : List File
two_files =
    record { filename = "cat.png"; content = "cat" }
    ∷ record { filename = "dog"; content = "dog" }
    ∷ []

-- The second write fails.
abbrev full_disk : Disk
full_disk = record {
  files = λ n. none;
  drawn = 0;
  write_fails = λ n. n == 1;
  torn = λ n. some "par";
  remove_fails = λ n. false;
}

abbrev two_ids : Bool → String
two_ids true = "8f14e45f-ceea-467f-a0b1-9d4c1f3a5b60"
two_ids false = "c9f0f895-fb98-4b91-99f5-1fd0297e236d"

two_lengths : (b : Bool) → count (two_ids b) ≡ 36
two_lengths true = refl
two_lengths false = refl

differ : equals (two_ids false) (two_ids true) ≡ false
unfolding equals
differ = refl

abbrev two_names : Names
two_names = record {
  uuid = λ n. two_ids (n == 0);
  ext = λ s. if equals s "cat.png" then ".png" else "";
  uuid_length = λ n. two_lengths (n == 0);
}

two_distinct : (n m : ℕ) → 0 ≤ m → m < n → n < 2 → two_names.uuid n ≢ two_names.uuid m
two_distinct n m low between high e =
    let first : m ≡ 0 = omega (arith, between, high) in
    let second : n == 0 ≡ false = ground (arith, between) in
    let third : m == 0 ≡ true = ground (arith, first) in
    let same : two_ids false ≡ two_ids true = ap two_ids (sym second) ∙ e ∙ ap two_ids third in
    let told : equals (two_ids false) (two_ids true) ≡ true = equals_complete _ _ same in
    cc (told, differ)

upload_files-IsAllOrNone_example :
    IsAllOrNone two_names 0 (λ n. none) two_files (upload_files two_names two_files full_disk)
upload_files-IsAllOrNone_example =
    upload_files-IsAllOrNone two_names two_files full_disk
      (record { fresh = λ n file le lt. refl; distinct = two_distinct }) λ n. refl
