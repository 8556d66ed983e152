-- ===== src/Profile.antt =====
-- Profiles: domain/profile.go, and the table profiles of
-- db/migrations/20251008113339_init_db.up.sql.
pub mod Table
pub mod Store
pub mod Service
pub mod Grpc
pub mod Owners
pub mod Pictures
mod Tests
use slps_team.Prelude.{ℕ, String, List, Option}
use slps_team.Friend.{FriendshipStatus, UserRelationsCounts, Tables}

-- A row of profiles.
pub record ProfileRow : Type 0 where
  pub user_id : ℕ
  pub first_name : String
  pub last_name : String
  pub avatar_path : Option String
  pub header_path : Option String
  pub about_myself : Option String
  pub gender : String
  pub dob : ℕ

-- `Profile`: a row with what the friendships say of the user.
pub record Profile : Type 0 where
  pub row : ProfileRow
  pub open row use *
  pub relations_count : UserRelationsCounts
  pub relation_status : FriendshipStatus

-- `ShortProfile`; no date is Go's zero time.
pub record ShortProfile : Type 0 where
  pub user_id : ℕ
  pub full_name : String
  pub avatar_path : Option String
  pub dob : Option ℕ

-- The table, and that of friendships with the ids of `users`.
pub record ProfileTables : Type 0 where
  pub profiles : List ProfileRow
  pub friends : Tables
