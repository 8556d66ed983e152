-- ===== src/Profile/Table.antt =====
-- The statements of internal/repository/db/profile.go, on the table.
use Prim.Native.String.{count, ◌++◌ as append}
use slps_team.Prelude.{
  ℕ, String, Bool, true, not, ◌&&◌, ◌||◌, ◌==◌, leb, List, [], ◌∷◌, map, any, tally, Option, none,
  some, if◌then◌else◌,
}
use slps_team.Friend.{known}
use slps_team.Profile.{ProfileRow, ShortProfile, ProfileTables}

abbrev pub is_of : ℕ → ProfileRow → Bool
is_of user_id p = p.user_id == user_id

abbrev pub at_most : ℕ → Option String → Bool
at_most n none = true
at_most n (some s) = leb (count s) n

-- The checks of the table, for one row.
unfoldable pub fits_checks : ProfileRow → Bool
fits_checks p =
    leb 1 (count p.first_name)
    && leb (count p.first_name) 64
    && leb 1 (count p.last_name)
    && leb (count p.last_name) 64
    && at_most 256 p.about_myself
    && at_most 512 p.avatar_path
    && at_most 512 p.header_path

-- `INSERT INTO profiles (user_id, first_name, last_name, gender, dob)`
unfoldable pub insert_profile :
    ℕ → String → String → String → ℕ → ProfileTables → Option (ℕ × ProfileTables)
insert_profile user_id first_name last_name gender dob t =
    let row : ProfileRow = record {
      user_id = user_id;
      first_name = first_name;
      last_name = last_name;
      avatar_path = none;
      header_path = none;
      about_myself = none;
      gender = gender;
      dob = dob;
    } in
    if fits_checks row && known t.friends.users user_id && not (any (is_of user_id) t.profiles)
    then some (1, record t { profiles = row ∷ t.profiles })
    else none

-- The checks, for the rows that a change reaches.
abbrev pub all_fit : ℕ → (ProfileRow → ProfileRow) → List ProfileRow → Bool
all_fit user_id change [] = true
all_fit user_id change (p ∷ ps) =
    (not (is_of user_id p) || fits_checks (change p)) && all_fit user_id change ps

-- `UPDATE profiles SET … WHERE user_id = $1`: how many rows it affects.
unfoldable pub update_profiles :
    ℕ → (ProfileRow → ProfileRow) → ProfileTables → Option (ℕ × ProfileTables)
update_profiles user_id change t =
    if all_fit user_id change t.profiles
    then some (
      tally (is_of user_id) t.profiles,
      record t { profiles = map (λ p. if is_of user_id p then change p else p) t.profiles },
    )
    else none

-- `first_name = $2, last_name = $3, gender = $4, dob = $5, about_myself = $6`
abbrev pub with_profile : ProfileRow → ProfileRow → ProfileRow
with_profile q p = record p {
  first_name = q.first_name;
  last_name = q.last_name;
  gender = q.gender;
  dob = q.dob;
  about_myself = q.about_myself;
}

abbrev pub with_avatar : Option String → ProfileRow → ProfileRow
with_avatar path p = record p { avatar_path = path }

abbrev pub with_header : Option String → ProfileRow → ProfileRow
with_header path p = record p { header_path = path }

abbrev pub select_profile : ℕ → List ProfileRow → Option ProfileRow
select_profile user_id [] = none
select_profile user_id (p ∷ ps) = if is_of user_id p then some p else select_profile user_id ps

-- `first_name || ' ' || last_name`
abbrev pub full_name_of : ProfileRow → String
full_name_of p = append p.first_name (append " " p.last_name)

abbrev pub short_of : ProfileRow → ShortProfile
short_of p = record {
  user_id = p.user_id;
  full_name = full_name_of p;
  avatar_path = p.avatar_path;
  dob = some p.dob;
}

-- The same without the date.
abbrev pub undated : ProfileRow → ShortProfile
undated p = record {
  user_id = p.user_id;
  full_name = full_name_of p;
  avatar_path = p.avatar_path;
  dob = none;
}

-- `usersMap[u.UserID] = u` for each row: a later row takes the place of an earlier one.
abbrev pub map_of : List ShortProfile → ℕ → Option ShortProfile
map_of [] id = none
map_of (p ∷ ps) id = elim (map_of ps id) [
  | none ↦ if p.user_id == id then some p else none
  | some q ↦ some q
]
