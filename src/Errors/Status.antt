-- ===== src/Errors/Status.antt =====
-- google.golang.org/grpc/status and codes, which the repository only calls.
use slps_team.Prelude.{ℕ, String, ◌≡◌, Option, some}

-- The codes that domain/errors.go names; `other_code` is any other.
pub data Code : Type 0 where
  not_found_code permission_denied invalid_argument already_exists_code internal unknown : Code
  unauthenticated failed_precondition unavailable : Code
  other_code : ℕ → Code

-- `status.Error` builds an error that carries a code and a message, and `status.FromError` reads
-- them back, on the far side of a call too.
pub record GrpcStatus : Type 1 where
  pub RpcError : Type 0
  pub error : Code → String → RpcError
  pub from_error : RpcError → Option (Code × String)
  pub from_error-error : (c : Code) (m : String) → from_error (error c m) ≡ some (c, m)
