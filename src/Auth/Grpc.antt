-- ===== src/Auth/Grpc.antt =====
-- `GrpcAuthHandler` of internal/grpc/auth.go, but for `IsLoggedIn`, which Auth/Gate has.
use slps_team.Prelude.{ℕ, String, Bool}
use slps_team.Errors.Status.{GrpcStatus}
use slps_team.Grpc.{Reply, serve}
use slps_team.Auth.{SidAndCsrfToken, RegisterRequest}
use slps_team.Auth.Sessions.{Redis, Codec}
use slps_team.Auth.Service.{
  World, Partners, login, register, logout, add_session, get_user_role, is_user_exists,
}

module _ (g : GrpcStatus) (redis : Redis) (codec : Codec redis.Data) where
  -- A method of the server.
  abbrev pub Endpoint : Type 0 → Type 0
  Endpoint A = World redis codec → Reply g A × World redis codec

  unfoldable pub serve_register : Partners → RegisterRequest → Endpoint ℕ
  serve_register p req = serve g (register redis codec p req)

  unfoldable pub serve_login : Partners → String → String → Endpoint ℕ
  serve_login p email password = serve g (login redis codec p email password)

  unfoldable pub serve_logout : String → Endpoint (Unit {0})
  serve_logout session_cookie = serve g (logout redis codec session_cookie)

  unfoldable pub serve_add_session : ℕ → Endpoint SidAndCsrfToken
  serve_add_session user_id = serve g (add_session redis codec user_id)

  unfoldable pub serve_get_user_role : ℕ → Endpoint String
  serve_get_user_role user_id = serve g (get_user_role redis codec user_id)

  unfoldable pub serve_is_user_exists : ℕ → Endpoint Bool
  serve_is_user_exists user_id = serve g (is_user_exists redis codec user_id)
