-- ===== src/Profile/Owners/Requests.antt =====
-- Histories of requests that change profiles, in any environment.
use slps_team.Prelude.{ℕ, ◌≡◌, List, [], ◌∷◌, Option, none, some}
use slps_team.Errors.{Sentinel}
use slps_team.Flow.Keeps.{Keeps-bind, Keeps-pure, Keeps-raise, Keeps-or_return}
use slps_team.Sql.Keeps.{
  Preserves, Preserves-exec, Preserves-query, Preserves-begin, Preserves-commit_tx,
  Preserves-in_transaction,
}
use slps_team.Uploads.{File, Names}
use slps_team.Backend.Keeps.{Held, Held-on_db, Held-on_disk}
use slps_team.Prelude.{String}
use slps_team.Profile.{ProfileRow, ProfileTables}
use slps_team.Profile.Table.{update_profiles, with_avatar, with_header, select_profile}
use slps_team.Profile.Store.{
  update_avatar_row, update_header_row, row_or_not_found, get_profile_row, get_avatar, get_header,
  undone, path_or_error, delete_avatar_row,
}
use slps_team.Profile.Service.{
  Clients, World, Call, first_path, replace_file, store_avatar, store_avatar_if_any, update_avatar,
  update_header, update_profile, delete_avatar,
}

pub data Request : Type 0 where
  updates : ProfileRow → List File → Request
  avatars headers : List File → Request
  avatar_deletes : Request

-- A request and the user of its session.
pub record Asked : Type 0 where
  pub caller : ℕ
  pub request : Request

module _ (c : Clients) (names : Names) where
  unfoldable pub perform : ℕ → Request → Call (Unit {0})
  perform u (updates p files) = update_profile c names p u files
  perform u (avatars files) = update_avatar names u files
  perform u (headers files) = update_header names u files
  perform u avatar_deletes = delete_avatar u

  unfoldable pub run_profiles : List Asked → World → World
  run_profiles [] w = w
  run_profiles (r ∷ rs) w = run_profiles rs (perform r.caller r.request w).1

-- A change of the user's row that keeps the predicate.
abbrev pub IsKeptBy : (ProfileTables → Type 0) → ℕ → (ProfileRow → ProfileRow) → Type 0
IsKeptBy P u change =
    (t : ProfileTables) (n : ℕ) (t' : ProfileTables)
    → P t
    → update_profiles u change t ≡ some (n, t')
    → P t'

module _ (P : ProfileTables → Type 0) where
  found_keeps : (found : Option ProfileRow) → Preserves P (row_or_not_found found)
  found_keeps none = Keeps-raise _
  found_keeps (some p) = Keeps-pure _

  row_keeps : (u : ℕ) → Preserves P (get_profile_row u)
  unfolding get_profile_row
  row_keeps u =
      Keeps-bind _ _ (Preserves-query P λ t. some (select_profile u t.profiles))
        λ found. found_keeps found

  module _ (u : ℕ) where
    get_avatar_keeps : Preserves P (get_avatar u)
    unfolding get_avatar
    get_avatar_keeps = Keeps-bind _ _ (row_keeps u) λ p. Keeps-pure _

    get_header_keeps : Preserves P (get_header u)
    unfolding get_header
    get_header_keeps = Keeps-bind _ _ (row_keeps u) λ p. Keeps-pure _

  module _ (names : Names) where
    first_path-Held : (paths : List String) → Held P (first_path paths)
    first_path-Held [] = Keeps-raise _
    first_path-Held (path ∷ paths) = Keeps-pure _

    replace_file-Held : (file : File) (old : Option String) → Held P (replace_file names file old)
    unfolding replace_file
    replace_file-Held file old =
        Keeps-bind _ _ (Keeps-or_return Sentinel.service _ (Held-on_disk P _))
          λ paths. first_path-Held paths

    module _ (u : ℕ) (avatar_kept : (path : Option String) → IsKeptBy P u (with_avatar path)) where
      store_avatar-Held : (file : File) → Held P (store_avatar names u file)
      unfolding store_avatar update_avatar_row
      store_avatar-Held file =
          Keeps-bind _ _ (Keeps-or_return Sentinel.db _ (Held-on_db P _ (get_avatar_keeps u)))
            λ old. Keeps-bind _ _ (replace_file-Held file old) λ path.
              Keeps-or_return Sentinel.db _ (
                Held-on_db P _ (
                  Keeps-bind _ _
                    (Preserves-exec P _ λ now t n t' h e. avatar_kept (some path) t n t' h e)
                    λ _. Keeps-pure _))

      pub store_if_any-Held : (files : List File) → Held P (store_avatar_if_any names u files)
      unfolding store_avatar_if_any
      store_if_any-Held [] = Keeps-pure _
      store_if_any-Held (f ∷ []) = store_avatar-Held f
      store_if_any-Held (f ∷ g ∷ fs) = Keeps-pure _

      pub update_avatar-Held : (files : List File) → Held P (update_avatar names u files)
      unfolding update_avatar
      update_avatar-Held [] = Keeps-raise _
      update_avatar-Held (f ∷ []) = store_avatar-Held f
      update_avatar-Held (f ∷ g ∷ fs) = Keeps-raise _

      path_keeps : (o : Option String) → Preserves P (path_or_error o)
      path_keeps none = Keeps-raise _
      path_keeps (some path) = Keeps-pure _

      pub delete_avatar-Held : Held P (delete_avatar u)
      unfolding delete_avatar delete_avatar_row
      delete_avatar-Held =
          Keeps-bind _ _
            (Keeps-or_return Sentinel.db _ (
              Held-on_db P _ (
                Preserves-in_transaction P undone _ (λ before t h k. h)
                  (Keeps-bind _ _ (Preserves-begin P) λ now. Keeps-bind _ _ (row_keeps u) λ p.
                    Keeps-bind _ _ (path_keeps p.avatar_path) λ old.
                      Keeps-bind _ _
                        (Preserves-exec P _ λ now t n t' h e. avatar_kept none t n t' h e)
                        λ _. Keeps-bind _ _ (Preserves-commit_tx P) λ _. Keeps-pure _))))
            λ path. Keeps-or_return Sentinel.db _ (Held-on_disk P _)

    pub update_header-Held :
        (u : ℕ) (files : List File)
        → ((path : Option String) → IsKeptBy P u (with_header path))
        → Held P (update_header names u files)
    unfolding update_header update_header_row
    update_header-Held u [] kept = Keeps-raise _
    update_header-Held u (f ∷ []) kept =
        Keeps-bind _ _ (Keeps-or_return Sentinel.db _ (Held-on_db P _ (get_header_keeps u))) λ old.
          Keeps-bind _ _ (replace_file-Held f old) λ path. Keeps-or_return Sentinel.service _ (
            Held-on_db P _ (
              Keeps-bind _ _ (Preserves-exec P _ λ now t n t' h e. kept (some path) t n t' h e)
                λ _. Keeps-pure _))
    update_header-Held u (f ∷ g ∷ fs) kept = Keeps-raise _
