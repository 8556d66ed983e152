-- ===== src/Errors.antt =====
-- domain/errors.go: the error values, `errors.Is`, and the three maps between them, HTTP and gRPC.
-- An error is a sentinel, an error that wraps another (`fmt.Errorf` with `%w`), or one that a
-- driver or a library made.
pub mod Status
pub mod Channel
mod Tests
use slps_team.Prelude.{
  ℕ, String, Bool, true, false, ◌≡◌, refl, ◌||◌, ◌==◌, Option, none, some, if◌then◌else◌,
}
use Prim.Native.String.{◌++◌}
use text.Mathlib.Text.{find?}
use Status.{
  Code, not_found_code, permission_denied, invalid_argument, already_exists_code, internal, unknown,
  unauthenticated, failed_precondition, unavailable, other_code, GrpcStatus,
}

-- The variables made by `errors.New`.
pub data Sentinel : Type 0 where
  not_found access_denied invalid_input not_exist db already_exists service invalid_params :
      Sentinel
  post_not_found post_text_too_long post_invalid_author friendship_not_found : Sentinel
  user_not_found email_taken invalid_email : Sentinel

pub data Error : Type 0 where
  sentinel : Sentinel → Error
  wrapped : String → Error → Error
  foreign : String → Error

abbrev pub sentinel_text : Sentinel → String
sentinel_text Sentinel.not_found = "not found"
sentinel_text Sentinel.access_denied = "access denied"
sentinel_text Sentinel.invalid_input = "invalid input"
sentinel_text Sentinel.not_exist = "not exist"
sentinel_text Sentinel.db = "dbconn error"
sentinel_text Sentinel.already_exists = "already exist"
sentinel_text Sentinel.service = "service error"
sentinel_text Sentinel.invalid_params = "invalid params"
sentinel_text Sentinel.post_not_found = "post not found"
sentinel_text Sentinel.post_text_too_long = "post text too long"
sentinel_text Sentinel.post_invalid_author = "invalid author"
sentinel_text Sentinel.friendship_not_found = "friendship not found"
sentinel_text Sentinel.user_not_found = "user not found"
sentinel_text Sentinel.email_taken = "email already taken"
sentinel_text Sentinel.invalid_email = "invalid email"

-- `err.Error()`
abbrev pub error_text : Error → String
error_text (sentinel s) = sentinel_text s
error_text (wrapped m e) = m ++ ": " ++ error_text e
error_text (foreign m) = m

-- A number for each sentinel, which stands for the address that `errors.Is` compares.
abbrev pub address : Sentinel → ℕ
address Sentinel.not_found = 0
address Sentinel.access_denied = 1
address Sentinel.invalid_input = 2
address Sentinel.not_exist = 3
address Sentinel.db = 4
address Sentinel.already_exists = 5
address Sentinel.service = 6
address Sentinel.invalid_params = 7
address Sentinel.post_not_found = 8
address Sentinel.post_text_too_long = 9
address Sentinel.post_invalid_author = 10
address Sentinel.friendship_not_found = 11
address Sentinel.user_not_found = 12
address Sentinel.email_taken = 13
address Sentinel.invalid_email = 14

-- `errors.Is(err, target)`: some error of the chain is the target.
abbrev pub errors_is : Error → Sentinel → Bool
errors_is (sentinel s) t = address s == address t
errors_is (wrapped m e) t = errors_is e t
errors_is (foreign m) t = false

-- `MapErrorToHTTP`, the status and the message to the user.
unfoldable pub map_error_to_http : Error → ℕ × String
map_error_to_http e =
    if errors_is e Sentinel.not_found || errors_is e Sentinel.post_not_found
    then (404, "Resource Not found")
    else if errors_is e Sentinel.access_denied
    then (403, "Access denied")
    else if errors_is e Sentinel.service
    then (500, "Internal Server error")
    else if errors_is e Sentinel.invalid_input
    then (400, "Invalid data")
    else if errors_is e Sentinel.not_exist
    then (400, "Invalid data")
    else if errors_is e Sentinel.already_exists
    then (409, "Already exist")
    else if errors_is e Sentinel.db
    then (500, "Internal Server error")
    else if errors_is e Sentinel.invalid_params
    then (400, "Invalid query parameters")
    else (500, "Internal Server error")

-- `strings.Contains`
abbrev pub contains : String → String → Bool
contains s t = elim (find? s t) [ none ↦ false | some _ ↦ true ]

-- The errors of the gRPC package are a parameter.
module _ (g : GrpcStatus) where
  unfoldable pub to_grpc_error : Error → g.RpcError
  to_grpc_error e =
      if errors_is e Sentinel.not_found || errors_is e Sentinel.not_exist
      then g.error not_found_code (error_text e)
      else if errors_is e Sentinel.access_denied
      then g.error permission_denied (error_text e)
      else if errors_is e Sentinel.invalid_input
      then g.error invalid_argument (error_text e)
      else if errors_is e Sentinel.already_exists
      then g.error already_exists_code (error_text e)
      else if errors_is e Sentinel.db
      then g.error internal "database error"
      else if errors_is e Sentinel.service
      then g.error internal "internal service error"
      else g.error unknown (error_text e)

-- The switch of `FromGrpcError` over `st.Code()`.
abbrev pub from_code : Code → String → Sentinel
from_code not_found_code m = Sentinel.not_found
from_code permission_denied m = Sentinel.access_denied
from_code invalid_argument m = Sentinel.invalid_input
from_code already_exists_code m = Sentinel.already_exists
from_code unauthenticated m = Sentinel.access_denied
from_code failed_precondition m = Sentinel.invalid_input
from_code internal m = if contains m "database error" then Sentinel.db else Sentinel.service
from_code unavailable m = Sentinel.service
from_code unknown m = Sentinel.service
from_code (other_code n) m = Sentinel.service

module _ (g : GrpcStatus) where
  unfoldable pub from_grpc_error : g.RpcError → Error
  from_grpc_error r = elim (g.from_error r) [
    | none ↦ sentinel Sentinel.service
    | some (c, m) ↦ sentinel (from_code c m)
  ]
