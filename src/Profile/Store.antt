-- ===== src/Profile/Store.antt =====
-- `DBProfileStore` of internal/repository/db/profile.go, method by method. Logging is left out.
use slps_team.Prelude.{is_one_of, ℕ, String, not, List, [], ◌∷◌, map, keep, Option, none, some}
use slps_team.Prelude.Int.{ℤ}
use slps_team.Errors.{Error, Sentinel, foreign}
use slps_team.Flow.{Action, pure, raise, fail, ◌>>=◌, ◌>>◌}
use slps_team.Paginate.{limit_offset}
use slps_team.Sql.{Db, exec, query, result_of, wrap_error, begin, commit_tx, in_transaction}
use slps_team.Profile.{ProfileRow, ShortProfile, ProfileTables}
use slps_team.Profile.Table.{
  insert_profile, update_profiles, with_profile, with_avatar, with_header, select_profile, short_of,
  undated, map_of,
}

abbrev pub Method : Type 0 → Type 0
Method A = Action (Db ProfileTables) A

unfoldable pub create_profile_row : ProfileRow → Method (Unit {0})
create_profile_row p = do
  _ ←
      wrap_error "insert profile"
        (exec λ now t. insert_profile p.user_id p.first_name p.last_name p.gender p.dob t)
  pure tt

unfoldable pub update_profile_row : ProfileRow → ℕ → Method (Unit {0})
update_profile_row p user_id = do
  _ ← exec λ now t. update_profiles user_id (with_profile p) t
  pure tt

unfoldable pub update_avatar_row : String → ℕ → Method (Unit {0})
update_avatar_row avatar_path user_id = do
  _ ← exec λ now t. update_profiles user_id (with_avatar (some avatar_path)) t
  pure tt

unfoldable pub update_header_row : String → ℕ → Method (Unit {0})
update_header_row header_path user_id = do
  _ ← exec λ now t. update_profiles user_id (with_header (some header_path)) t
  pure tt

abbrev pub rows_of : List ℕ → ProfileTables → List ProfileRow
rows_of user_ids t = keep (λ p. is_one_of user_ids p.user_id) t.profiles

abbrev pub rows_besides : List ℕ → ProfileTables → List ProfileRow
rows_besides user_ids t = keep (λ p. not (is_one_of user_ids p.user_id)) t.profiles

-- No query for no ids, here and in the next two.
unfoldable pub get_short_profile_map : List ℕ → Method (ℕ → Option ShortProfile)
get_short_profile_map [] = pure (λ id. none)
get_short_profile_map (i ∷ is) = do
  rows ← query λ t. some (map undated (rows_of (i ∷ is) t))
  profiles ← result_of rows
  pure (map_of profiles)

unfoldable pub get_short_profiles : List ℕ → Method (List ShortProfile)
get_short_profiles [] = pure []
get_short_profiles (i ∷ is) = do
  rows ← query λ t. some (map short_of (rows_of (i ∷ is) t))
  result_of rows

unfoldable pub get_other_short_profiles : List ℕ → ℤ → ℤ → Method (List ShortProfile)
get_other_short_profiles [] limit offset = pure []
get_other_short_profiles (i ∷ is) limit offset = do
  rows ← query λ t. limit_offset limit offset (map short_of (rows_besides (i ∷ is) t))
  result_of rows

abbrev pub row_or_not_found : Option ProfileRow → Method ProfileRow
row_or_not_found none = fail Sentinel.not_found
row_or_not_found (some p) = pure p

unfoldable pub get_profile_row : ℕ → Method ProfileRow
get_profile_row user_id = do
  found ← query λ t. some (select_profile user_id t.profiles)
  row_or_not_found found

unfoldable pub get_avatar : ℕ → Method (Option String)
get_avatar user_id = do p ← get_profile_row user_id; pure p.avatar_path

unfoldable pub get_header : ℕ → Method (Option String)
get_header user_id = do p ← get_profile_row user_id; pure p.header_path

-- A rollback restores the tables whole.
abbrev pub undone : ProfileTables → ProfileTables → ProfileTables
undone before t = before

-- The scan of a NULL into a string.
abbrev pub null_scan : Error
null_scan = foreign "sql: Scan error: converting NULL to string is unsupported"

abbrev pub path_or_error : Option String → Method String
path_or_error none = raise null_scan
path_or_error (some path) = pure path

unfoldable pub delete_avatar_row : ℕ → Method String
delete_avatar_row user_id = in_transaction undone (do
  _ ← begin
  p ← get_profile_row user_id
  old ← path_or_error p.avatar_path
  _ ← exec λ now t. update_profiles user_id (with_avatar none) t
  commit_tx
  pure old)
