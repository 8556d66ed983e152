-- ===== src/Uploads.antt =====
-- The uploaded files: `UploadFile`, `UploadFiles`, `DeleteFile`, `DeleteFiles` and `HandleFileUpload`
-- of internal/service/upload.go. A file is known by its name under the directory of uploads. The
-- file system fails as the outside decides: a failed removal changes nothing, and a failed write may
-- leave a part of the file.
pub mod Laws
mod Tests
use slps_team.Prelude.{
  ℕ, suc, String, ◌≡◌, Bool, true, false, List, [], ◌∷◌, ◌++◌, Option, none, some, if◌then◌else◌,
}
use slps_team.Prelude.Strings.{equals}
use Prim.Native.String.{count, ◌++◌ as append}
use slps_team.Errors.{Error, foreign}
use slps_team.Flow.{Result, ok, err, Action, pure, raise, ◌>>=◌, ◌>>◌, ignoring}

-- `File` of domain/uploadHelper.go.
pub record File : Type 0 where
  pub filename : String
  pub content : String

-- `uuid.New().String()`, the n-th one, of 36 characters, and `filepath.Ext`.
pub record Names : Type 0 where
  pub uuid : ℕ → String
  pub ext : String → String
  pub uuid_length : (n : ℕ) → count (uuid n) ≡ 36

-- The directory, how many names have been drawn, which writes and removals fail, and what a failed
-- write leaves under its name, if anything.
pub record Disk : Type 0 where
  pub files : String → Option String
  pub drawn : ℕ
  pub write_fails : ℕ → Bool
  pub torn : ℕ → Option String
  pub remove_fails : String → Bool

abbrev pub os_error : Error
os_error = foreign "os"

abbrev pub with_file : String → Option String → (String → Option String) → String → Option String
with_file name content files n = if equals n name then content else files n

-- What is left of a failed `os.WriteFile`: nothing new, or a part of the file.
abbrev pub with_torn : String → Option String → (String → Option String) → String → Option String
with_torn name none files = files
with_torn name (some part) files = with_file name (some part) files

-- `DeleteFile`; a file that is not there is no error.
unfoldable pub delete_file : String → Action Disk (Unit {0})
delete_file name d =
    if d.remove_fails name
    then (err os_error, d)
    else (ok tt, record d { files = with_file name none d.files })

-- The loop that removes what has been uploaded.
unfoldable pub delete_each : List String → Disk → Disk
delete_each [] d = d
delete_each (name ∷ names) d = delete_each names (ignoring (delete_file name) d)

-- `DeleteFiles`: it skips nil and "", and stops at the first error.
unfoldable pub delete_files : List (Option String) → Action Disk (Unit {0})
delete_files [] = pure tt
delete_files (none ∷ names) = delete_files names
delete_files (some name ∷ names) =
    let rest = delete_files names in if equals name "" then rest else (delete_file name >> rest)

module _ (names : Names) where
  abbrev pub name_of : ℕ → File → String
  name_of n file = append (names.uuid n) (names.ext file.filename)

  unfoldable pub upload_file : File → Action Disk String
  upload_file file d =
      let name = name_of d.drawn file in
      if d.write_fails d.drawn
      then (
        err os_error,
        record d { files = with_torn name (d.torn d.drawn) d.files; drawn = suc d.drawn },
      )
      else (
        ok name,
        record d { files = with_file name (some file.content) d.files; drawn = suc d.drawn },
      )

  -- One round of the loop: what is done with its result.
  abbrev pub uploaded :
      List String
      → (List String → Action Disk (List String))
      → Result String × Disk
      → Result (List String) × Disk
  uploaded done rest (ok name, d) = rest (done ++ name ∷ []) d
  uploaded done rest (err e, d) = (err e, delete_each done d)

  -- The loop of `UploadFiles`, with the names so far.
  unfoldable pub upload_rest : List File → List String → Action Disk (List String)
  upload_rest [] done d = pure done d
  upload_rest (file ∷ files) done d = uploaded done (upload_rest files) (upload_file file d)

  unfoldable pub upload_files : List File → Action Disk (List String)
  upload_files files = upload_rest files []

  -- The old files go only after the new ones are there; an error of that is dropped.
  unfoldable pub handle_file_upload : List File → List (Option String) → Action Disk (List String)
  handle_file_upload files old_paths = do
    new_paths ← upload_files files
    (λ d. (ok new_paths, ignoring (delete_files old_paths) d))
