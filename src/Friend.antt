-- ===== src/Friend.antt =====
-- Friendships: domain/friend.go, and the table friend_relationships of
-- db/migrations/20251008113339_init_db.up.sql.
pub mod Table
pub mod Store
pub mod Service
pub mod Laws
pub mod Constraints
pub mod Lifecycle
pub mod Safety
pub mod Lists
pub mod Grpc
pub mod Http
mod Tests
use slps_team.Prelude.{
  ℕ, Bool, true, false, not, ◌&&◌, ◌||◌, ◌==◌, ltb, List, [], ◌∷◌, any, Option, none, some,
}

-- `FriendshipStatus`. `no_status` is the constant "none", and `unset` the empty string.
pub data FriendshipStatus : Type 0 where
  pending accepted rejected blocked no_status unset : FriendshipStatus

-- A number for each text, to compare them.
abbrev pub status_code : FriendshipStatus → ℕ
status_code FriendshipStatus.pending = 0
status_code FriendshipStatus.accepted = 1
status_code FriendshipStatus.rejected = 2
status_code FriendshipStatus.blocked = 3
status_code FriendshipStatus.no_status = 4
status_code FriendshipStatus.unset = 5

abbrev pub is_status : FriendshipStatus → FriendshipStatus → Bool
is_status s t = status_code s == status_code t

-- `FriendshipCountType`; `other_type` is any other text.
pub data FriendshipCountType : Type 0 where
  count_pending count_accepted count_rejected count_blocked : FriendshipCountType
  count_sent count_not_friends other_type : FriendshipCountType

pub record UserRelationsCounts : Type 0 where
  pub accepted : ℕ
  pub pending : ℕ
  pub sent : ℕ
  pub blocked : ℕ

-- A row of the table.
pub record Row : Type 0 where
  pub first_user_id : ℕ
  pub second_user_id : ℕ
  pub action_user_id : ℕ
  pub status : FriendshipStatus
  pub created_at : ℕ
  pub updated_at : ℕ

-- `Friendship`: the row, with a field `id` that no query fills.
pub record Friendship : Type 0 where
  pub id : ℕ
  pub row : Row
  pub open row use *

-- The table, and the ids of `users` that its foreign keys refer to.
pub record Tables : Type 0 where
  pub rows : List Row
  pub users : List ℕ

-- The values of friendship_status_enum.
abbrev pub in_enum : FriendshipStatus → Bool
in_enum FriendshipStatus.no_status = false
in_enum FriendshipStatus.unset = false
in_enum _ = true

-- A foreign key finds its row.
unfoldable pub known : List ℕ → ℕ → Bool
known users u = any (λ v. v == u) users

-- The constraints of the table, for one row.
unfoldable pub satisfies_constraints : List ℕ → Row → Bool
satisfies_constraints users r =
    not (r.first_user_id == r.second_user_id)
    && ltb r.first_user_id r.second_user_id
    && (r.action_user_id == r.first_user_id || r.action_user_id == r.second_user_id)
    && known users r.first_user_id
    && known users r.second_user_id
    && known users r.action_user_id
    && in_enum r.status
