-- ===== src/Auth/Service.antt =====
-- `AuthService` of internal/service/auth.go over its two stores, and `GrpcAuthHandler` of
-- internal/grpc/auth.go. Logging is left out.
use slps_team.Prelude.{ℕ, String, ◌≡◌, Bool, true, not, if◌then◌else◌}
use slps_team.Prelude.Strings.{equals}
use Prim.Native.String.{◌++◌, count}
use slps_team.Errors.{Error, Sentinel, sentinel, errors_is}
use slps_team.Flow.{
  Result, ok, err, Action, pure, lift, on_error, or_return, return_if, ◌>>=◌, ◌>>◌,
}
use slps_team.Sql.{Db}
use slps_team.Auth.{User, Session, SidAndCsrfToken, RegisterRequest}
use slps_team.Auth.Sessions
use slps_team.Auth.Users
use slps_team.Auth.Users.{Users, create_user, get_user_by_email, get_user_by_id}
use slps_team.Auth.Sessions.{Redis, Codec, State}

pub record Profile : Type 0 where
  pub user_id : ℕ
  pub first_name : String
  pub last_name : String
  pub dob : ℕ
  pub gender : String

-- The packages and services that the service calls: govalidator on the tags of the request, bcrypt
-- with its documented contract, the profile service and the search index.
pub record Partners : Type 0 where
  pub validate_struct : RegisterRequest → Bool
  pub generate_from_password : String → Result String
  pub compare_hash_and_password : String → String → Bool
  pub create_profile : Profile → Result (Unit {0})
  pub index_profile : String → ℕ → Result (Unit {0})
  pub compare-generate :
      (p h : String) → generate_from_password p ≡ ok h → compare_hash_and_password h p ≡ true
  pub generate_length : (p h : String) → generate_from_password p ≡ ok h → count h ≡ 60

-- `if errors.Is(err, domain.ErrNotFound) { … ErrNotFound } else { … ErrDB }`
abbrev pub not_found_or_db : Error → Sentinel
not_found_or_db e = if errors_is e Sentinel.not_found then Sentinel.not_found else Sentinel.db

module _ (redis : Redis) (codec : Codec redis.Data) where
  pub record World : Type 0 where
    pub users : Db Users
    pub sessions : State redis codec

  abbrev pub Call : Type 0 → Type 0
  Call A = Action World A

module _ {redis : Redis} {codec : Codec redis.Data} {A : Type 0} where
  unfoldable pub on_users : Action (Db Users) A → Call redis codec A
  on_users m w = let (r, users) = m w.users in (r, record w { users = users })

  abbrev pub on_sessions : Action (State redis codec) A → Call redis codec A
  on_sessions m w = let (r, sessions) = m w.sessions in (r, record w { sessions = sessions })

module _ (redis : Redis) (codec : Codec redis.Data) where
  -- Both branches of the error return it as it is.
  unfoldable pub is_logged_in : String → Call redis codec Session
  is_logged_in session_cookie =
      on_sessions (slps_team.Auth.Sessions.get_session_by_session_id redis codec session_cookie)

  unfoldable pub add_session : ℕ → Call redis codec SidAndCsrfToken
  add_session user_id =
      or_return Sentinel.db (on_sessions (slps_team.Auth.Sessions.add_session redis codec user_id))

  unfoldable pub logout : String → Call redis codec (Unit {0})
  logout session =
      or_return Sentinel.db
        (on_sessions (slps_team.Auth.Sessions.delete_session redis codec session))

  unfoldable pub get_user_role : ℕ → Call redis codec String
  get_user_role user_id = do
    user ← or_return Sentinel.db (on_users (get_user_by_id user_id))
    pure user.role

  unfoldable pub is_user_exists : ℕ → Call redis codec Bool
  is_user_exists user_id =
      or_return Sentinel.db (on_users (slps_team.Auth.Users.is_user_exists user_id))

  -- `if err != nil { if !errors.Is(err, ErrNotFound) { … ErrDB } } else { … ErrAlreadyExists }`
  abbrev pub must_be_absent :
      Result User × World redis codec → Result (Unit {0}) × World redis codec
  must_be_absent (ok user, w) = (err (sentinel Sentinel.already_exists), w)
  must_be_absent (err e, w) =
      (if errors_is e Sentinel.not_found then ok tt else err (sentinel Sentinel.db), w)

  abbrev pub email_must_be_free : String → Call redis codec (Unit {0})
  email_must_be_free email w = must_be_absent (on_users (get_user_by_email email) w)

  module _ (p : Partners) where
    unfoldable pub login : String → String → Call redis codec ℕ
    login email password = do
      user ← on_error not_found_or_db (on_users (get_user_by_email email))
      return_if (not (p.compare_hash_and_password user.password password)) Sentinel.invalid_input
      pure user.id

    abbrev pub profile_of : RegisterRequest → ℕ → Profile
    profile_of req user_id = record {
      user_id = user_id;
      first_name = req.first_name;
      last_name = req.last_name;
      dob = req.dob;
      gender = req.gender;
    }

    unfoldable pub register : RegisterRequest → Call redis codec ℕ
    register req = do
      return_if (not (p.validate_struct req)) Sentinel.invalid_input
      email_must_be_free req.email
      return_if (not (equals req.password req.confirm_password)) Sentinel.invalid_input
      hashed_password ← or_return Sentinel.service (lift (p.generate_from_password req.password))
      user_id ← or_return Sentinel.db (on_users (create_user req.email hashed_password))
      or_return Sentinel.db (lift (p.create_profile (profile_of req user_id)))
      or_return Sentinel.db
          (lift (p.index_profile (req.first_name ++ " " ++ req.last_name) user_id))
      pure user_id
