-- ===== src/Profile/Service.antt =====
-- `ProfileService` of internal/service/profile.go, over its store, the store of friendships and the
-- directory of uploads. Logging is left out.
use Prim.Native.String.{◌++◌ as append}
use slps_team.Prelude.{ℕ, String, Bool, not, refl, List, [], ◌∷◌, Option, if◌then◌else◌}
use slps_team.Prelude.Int.{ℤ}
use slps_team.Errors.{Error, Sentinel, errors_is, foreign}
use slps_team.Flow.{
  Result, Action, pure, raise, fail, lift, on_error, or_return, return_if, ◌>>=◌, ◌>>◌,
}
use slps_team.Sql.Focus.{Part, on_part}
use slps_team.Uploads.{File, Names, handle_file_upload, delete_file}
use slps_team.Backend.{World as BackendWorld, on_db, on_disk}
use slps_team.Friend.{Tables}
use slps_team.Friend.Store.{count_user_relations, get_friendship_status}
use slps_team.Profile.{ProfileRow, Profile, ShortProfile, ProfileTables}
use slps_team.Profile.Store.{
  create_profile_row, update_profile_row, update_avatar_row, update_header_row,
  get_short_profile_map, get_short_profiles, get_other_short_profiles, get_profile_row, get_avatar,
  get_header, delete_avatar_row,
}

-- govalidator on the tags of a profile, and `UpdateProfile` of the search index.
pub record Clients : Type 0 where
  pub validate_struct : ProfileRow → Bool
  pub index_profile : String → ℕ → Result (Unit {0})

abbrev pub World : Type 0
World = BackendWorld ProfileTables

abbrev pub Call : Type 0 → Type 0
Call A = Action World A

abbrev pub friendships : Part ProfileTables Tables
friendships = record {
  get = λ t. t.friends;
  put = λ f t. record t { friends = f };
  put_same = λ t. refl;
}

abbrev pub missing_or_db : Error → Sentinel
missing_or_db e = if errors_is e Sentinel.not_found then Sentinel.not_found else Sentinel.db

-- `newfilePath[0]`
abbrev pub first_path : List String → Call String
first_path [] = raise (foreign "runtime error: index out of range")
first_path (path ∷ paths) = pure path

module _ (names : Names) where
  -- The new file of a picture, in place of the old one.
  unfoldable pub replace_file : File → Option String → Call String
  replace_file file old = do
    paths ← or_return Sentinel.service (on_disk (handle_file_upload names (file ∷ []) (old ∷ [])))
    first_path paths

  -- The three steps of a new avatar.
  unfoldable pub store_avatar : ℕ → File → Call (Unit {0})
  store_avatar user_id file = do
    old ← or_return Sentinel.db (on_db (get_avatar user_id))
    path ← replace_file file old
    or_return Sentinel.db (on_db (update_avatar_row path user_id))

  -- Any other number of files than one is passed over.
  unfoldable pub store_avatar_if_any : ℕ → List File → Call (Unit {0})
  store_avatar_if_any user_id (file ∷ []) = store_avatar user_id file
  store_avatar_if_any user_id _ = pure tt

  unfoldable pub update_avatar : ℕ → List File → Call (Unit {0})
  update_avatar user_id (file ∷ []) = store_avatar user_id file
  update_avatar user_id _ = fail Sentinel.invalid_input

  unfoldable pub update_header : ℕ → List File → Call (Unit {0})
  update_header user_id (file ∷ []) = do
    old ← or_return Sentinel.db (on_db (get_header user_id))
    path ← replace_file file old
    or_return Sentinel.service (on_db (update_header_row path user_id))
  update_header user_id _ = fail Sentinel.invalid_input

module _ (c : Clients) where
  unfoldable pub create_profile : ProfileRow → Call (Unit {0})
  create_profile p = do
    return_if (not (c.validate_struct p)) Sentinel.invalid_input
    or_return Sentinel.db (on_db (create_profile_row p))

  unfoldable pub update_profile : Names → ProfileRow → ℕ → List File → Call (Unit {0})
  update_profile names p user_id files = do
    return_if (not (c.validate_struct p)) Sentinel.invalid_input
    store_avatar_if_any names user_id files
    or_return Sentinel.db (on_db (update_profile_row p user_id))
    or_return Sentinel.db
        (lift (c.index_profile (append p.first_name (append " " p.last_name)) user_id))

unfoldable pub get_profile : ℕ → ℕ → Call Profile
get_profile self_user_id user_id = do
  p ← on_error missing_or_db (on_db (get_profile_row user_id))
  counts ← or_return Sentinel.db (on_db (on_part friendships (count_user_relations user_id)))
  status ←
      or_return Sentinel.db
        (on_db (on_part friendships (get_friendship_status self_user_id user_id)))
  pure (record { row = p; relations_count = counts; relation_status = status })

unfoldable pub delete_avatar : ℕ → Call (Unit {0})
delete_avatar user_id = do
  path ← or_return Sentinel.db (on_db (delete_avatar_row user_id))
  or_return Sentinel.db (on_disk (delete_file path))

unfoldable pub short_profile_map : List ℕ → Call (ℕ → Option ShortProfile)
short_profile_map user_ids = on_error missing_or_db (on_db (get_short_profile_map user_ids))

unfoldable pub short_profiles : List ℕ → Call (List ShortProfile)
short_profiles user_ids = on_error missing_or_db (on_db (get_short_profiles user_ids))

unfoldable pub other_short_profiles : List ℕ → ℤ → ℤ → Call (List ShortProfile)
other_short_profiles user_ids limit offset =
    on_error missing_or_db (on_db (get_other_short_profiles user_ids limit offset))
