-- ===== src/Community.antt =====
-- Communities: domain/community.go, and the tables communities and community_subscriptions of
-- db/migrations/20251008113339_init_db.up.sql.
pub mod Table
pub mod Store
pub mod Service
pub mod Safety
pub mod Members
pub mod Owners
mod Tests
use slps_team.Prelude.{ℕ, String, Bool, List, Option}

-- A row of communities.
pub record CommunityRow : Type 0 where
  pub id : ℕ
  pub name : String
  pub description : String
  pub creator_id : ℕ
  pub avatar_path : Option String
  pub cover_path : Option String
  pub created_at : ℕ
  pub updated_at : ℕ

-- `Community`: a row with the number of its subscribers.
pub record Community : Type 0 where
  pub row : CommunityRow
  pub open row use *
  pub subscribers_count : ℕ

pub record ShortCommunity : Type 0 where
  pub id : ℕ
  pub name : String
  pub description : String
  pub avatar_path : Option String
  pub subscribers_count : ℕ

pub record CommunityForMyCommunity : Type 0 where
  pub id : ℕ
  pub name : String
  pub avatar_path : Option String

-- `CommunityForView`: a community, and whether the user that asks is subscribed.
pub record CommunityForView : Type 0 where
  pub community : Community
  pub is_subscribed : Bool

pub record CommunitySubscriber : Type 0 where
  pub user_id : ℕ
  pub full_name : String
  pub avatar_path : Option String

-- `CommunityType`; any other text is searched as "subscriber" and "owned" are.
pub data CommunityType : Type 0 where
  subscriber recommended owned : CommunityType

pub record CommunityRequest : Type 0 where
  pub name : String
  pub description : String

-- A row of community_subscriptions.
pub record Subscription : Type 0 where
  pub community_id : ℕ
  pub user_id : ℕ
  pub created_at : ℕ

-- The two tables, the next value of the identity column, and the ids of `users`.
pub record CommunityTables : Type 0 where
  pub communities : List CommunityRow
  pub subscriptions : List Subscription
  pub next_id : ℕ
  pub users : List ℕ
