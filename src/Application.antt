-- ===== src/Application.antt =====
-- Applications to the support team: domain/application.go, and the table applications of
-- db/migrations/20251008113339_init_db.up.sql.
pub mod Store
pub mod Service
pub mod Http
pub mod Status
pub mod Owners
mod Tests
use slps_team.Prelude.{ℕ, String, Bool, ◌||◌, List, Option, none, some, if◌then◌else◌}
use slps_team.Prelude.Strings.{equals}

-- `application_status_enum`; `opened` is `'open'`.
pub data ApplicationStatus : Type 0 where
  opened in_work closed : ApplicationStatus

-- The enumeration's input; any other text is refused.
unfoldable pub read_status : String → Option ApplicationStatus
read_status text =
    if equals text "open"
    then some ApplicationStatus.opened
    else if equals text "inWork"
    then some ApplicationStatus.in_work
    else if equals text "closed"
    then some ApplicationStatus.closed
    else none

-- `application_category_enum`
unfoldable pub is_category : String → Bool
is_category text =
    equals text "app_freezing"
    || equals text "page_not_loading"
    || equals text "chat_not_working"
    || equals text "profile_not_working"
    || equals text "messenger_not_working"
    || equals text "friend_not_working"
    || equals text "auth_problem"

-- `Application`. `FullName` is left out: no query fills it.
pub record Application : Type 0 where
  pub id : ℕ
  pub status : ApplicationStatus
  pub category : String
  pub text : String
  pub author_id : Option ℕ
  pub created_at : ℕ
  pub updated_at : ℕ
  pub email_reg : String
  pub email_feed_back : String

-- A row of applications.
pub record ApplicationRow : Type 0 where
  pub application : Application
  pub temp_session_id : Option String

pub record TempSessionInfo : Type 0 where
  pub user_id : Option ℕ
  pub temp_session_id : Option String

-- What a request's context holds: the user of the session, and the pointer to the temporary session.
pub record Context : Type 0 where
  pub user : Option ℕ
  pub info : Option TempSessionInfo

-- The table, the next value of its identity column, and the ids of `users`.
pub record ApplicationTables : Type 0 where
  pub applications : List ApplicationRow
  pub next_id : ℕ
  pub users : List ℕ
