-- ===== src/Auth.antt =====
-- Users, sessions and who may do what: domain/user.go, domain/session.go, domain/auth.go.
pub mod Users
pub mod Sessions
pub mod Service
pub mod Gate
pub mod UserTable
pub mod Accounts
pub mod Login
pub mod Grpc
pub mod Access
pub mod Lives
mod Tests
use slps_team.Prelude.{ℕ, String}

pub record User : Type 0 where
  pub id : ℕ
  pub email : String
  pub password : String
  pub role : String

pub record Session : Type 0 where
  pub user_id : ℕ
  pub csrf_token : String

pub record SidAndCsrfToken : Type 0 where
  pub csrf_token : String
  pub sid : String

-- `Dob` and `Gender` only go to the profile service.
pub record RegisterRequest : Type 0 where
  pub first_name : String
  pub last_name : String
  pub email : String
  pub password : String
  pub confirm_password : String
  pub dob : ℕ
  pub gender : String
