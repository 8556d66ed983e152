-- ===== src/Auth/Gate.antt =====
-- Who may reach a handler: `IsLoggedIn` of internal/handler/auth.go, which asks the auth service
-- through gRPC, and `AuthMiddleware` of internal/handler/middleware.go.
use slps_team.Prelude.{
  ℕ, String, Bool, not, ◌&&◌, ◌||◌, List, [], ◌∷◌, any, Option, none, some, if◌then◌else◌,
}
use slps_team.Prelude.Strings.{equals}
use text.Mathlib.Text.{starts_with}
use slps_team.Errors.{Sentinel, errors_is}
use slps_team.Errors.Status.{GrpcStatus}
use slps_team.Flow.{Result, ok, err, fail}
use slps_team.Grpc.{Reply, serve, call}
use slps_team.Auth.{Session}
use slps_team.Auth.Sessions.{Redis, Codec}
use slps_team.Auth.Service.{World, Call, is_logged_in}

-- What the middleware reads of a request.
pub record Request : Type 0 where
  pub method : String
  pub path : String
  pub session_id : Option String
  pub csrf_header : String

-- The next handler is called, with the user in its context or with none, or the answer is a status.
pub data Passage : Type 0 where
  served : Option ℕ → Passage
  refused : ℕ → Passage

abbrev pub one_of : List String → String → Bool
one_of texts s = any (λ t. equals t s) texts

abbrev pub forbidden_paths_with_auth : List String
forbidden_paths_with_auth = "/api/auth/login" ∷ "/api/auth/register" ∷ []

abbrev pub allowed_paths_without_auth : List String
allowed_paths_without_auth = "/api/auth/login" ∷ "/api/auth/register" ∷ "/api/auth/isloggedin" ∷ []

abbrev pub safe_methods : List String
safe_methods = "GET" ∷ "HEAD" ∷ "OPTIONS" ∷ "TRACE" ∷ []

-- The paths open to everyone.
abbrev pub is_open : String → Bool
is_open path = one_of allowed_paths_without_auth path || starts_with path "/api/applications"

-- The branch with a session.
abbrev pub pass_user : Bool → Request → Session → Passage
pass_user debug r session =
    if one_of forbidden_paths_with_auth r.path
    then refused 403
    else if not (one_of safe_methods r.method)
        && not debug
        && not (equals r.csrf_header session.csrf_token)
    then refused 403
    else served (some session.user_id)

-- The branch without one.
abbrev pub pass_guest : Request → Passage
pass_guest r = if is_open r.path then served none else refused 403

abbrev pub passage_of : Bool → Request → Result Session → Passage
passage_of debug r (ok session) = pass_user debug r session
passage_of debug r (err e) = if errors_is e Sentinel.not_found then pass_guest r else refused 500

module _ (g : GrpcStatus) (redis : Redis) (codec : Codec redis.Data) where
  -- `GrpcAuthHandler.IsLoggedIn`
  unfoldable pub serve_is_logged_in :
      String → World redis codec → Reply g Session × World redis codec
  serve_is_logged_in session_cookie = serve g (is_logged_in redis codec session_cookie)

  abbrev pub session_by_cookie : Option String → Call redis codec Session
  session_by_cookie none = fail Sentinel.not_found
  session_by_cookie (some cookie) = call g (serve_is_logged_in cookie)

  -- `AuthHandler.IsLoggedIn`
  unfoldable pub request_session : Request → Call redis codec Session
  request_session r = session_by_cookie r.session_id

  unfoldable pub auth_middleware : Bool → Request → World redis codec → Passage × World redis codec
  auth_middleware debug r w =
      if equals r.method "OPTIONS"
      then (served none, w)
      else let (session, w') = request_session r w in (passage_of debug r session, w')
