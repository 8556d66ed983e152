-- ===== src/Errors/Channel.antt =====
-- What an error of a service becomes on its way through gRPC: `ToGrpcError` in the server, then
-- `FromGrpcError` in the client (domain/errors.go).
use slps_team.Prelude.{◌≡◌, refl, ◌∙◌, ap, arith, ◌↔◌, Bool, false, Option, none, some, ◌==◌}
use slps_team.Errors.{
  Error, Sentinel, sentinel, wrapped, foreign, errors_is, address, to_grpc_error, from_grpc_error,
  map_error_to_http,
}
use slps_team.Errors.Status.{GrpcStatus}

-- The sentinel at the end of a chain, if there is one.
abbrev pub root : Error → Option Sentinel
root (sentinel s) = some s
root (wrapped m e) = root e
root (foreign m) = none

abbrev is_root : Option Sentinel → Sentinel → Bool
is_root none t = false
is_root (some s) t = address s == address t

errors_is-root : (e : Error) (t : Sentinel) → errors_is e t ≡ is_root (root e) t
errors_is-root (sentinel s) t = refl
errors_is-root (wrapped m e) t = errors_is-root e t
errors_is-root (foreign m) t = refl

-- The sentinels that the switch of `ToGrpcError` knows, and that come back as they were.
abbrev pub carried : Option Sentinel → Sentinel
carried (some Sentinel.not_found) = Sentinel.not_found
carried (some Sentinel.not_exist) = Sentinel.not_found
carried (some Sentinel.access_denied) = Sentinel.access_denied
carried (some Sentinel.invalid_input) = Sentinel.invalid_input
carried (some Sentinel.already_exists) = Sentinel.already_exists
carried (some Sentinel.db) = Sentinel.db
carried _ = Sentinel.service

-- The user sees another HTTP answer for these, once they have gone through gRPC.
abbrev pub IsLost : Option Sentinel → Type 0
IsLost (some Sentinel.not_exist) = Unit {0}
IsLost (some Sentinel.invalid_params) = Unit {0}
IsLost (some Sentinel.post_not_found) = Unit {0}
IsLost _ = ⊥

carried_again : (r : Option Sentinel) → carried (some (carried r)) ≡ carried r
carried_again none = refl
carried_again (some Sentinel.db) = refl
carried_again (some s) = refl

module _ (g : GrpcStatus) where
  -- An error that a service returns, as the caller of its client gets it.
  pub channel : Error → Error
  channel e = from_grpc_error g (to_grpc_error g e)

  carried-root : (e : Error) (r : Option Sentinel) → root e ≡ r → channel e ≡ sentinel (carried r)
  unfolding channel to_grpc_error from_grpc_error
  carried-root e none h = simp (errors_is-root e, h) (rw (g.from_error-error, from_grpc_error))
  carried-root e (some Sentinel.db) h =
      simp (errors_is-root e, h) (rw (g.from_error-error, from_grpc_error))
  carried-root e (some s) h = simp (errors_is-root e, h) (rw (g.from_error-error, from_grpc_error))

  channel-root : (e : Error) → channel e ≡ sentinel (carried (root e))
  channel-root e = carried-root e (root e) refl

  -- One trip through gRPC changes the HTTP answer to an error exactly when the sentinel at the end of
  -- its chain is "not exist", "invalid params" or "post not found".
  pub http-channel :
      (e : Error) → (map_error_to_http (channel e) ≡ map_error_to_http e) ↔ (¬ IsLost (root e))
  unfolding map_error_to_http
  http-channel e = rw (channel-root e) (by_root (root e) refl)
    where
      by_root :
          (r : Option Sentinel)
          → root e ≡ r
          → (map_error_to_http (sentinel (carried (root e))) ≡ map_error_to_http e)
            ↔ (¬ IsLost (root e))
      by_root none h = simp (errors_is-root e, h) (grind arith)
      by_root (some Sentinel.db) h = simp (errors_is-root e, h) (grind arith)
      by_root (some s) h = simp (errors_is-root e, h) (grind arith)

  -- A second trip through gRPC changes no error that has made one.
  channel-channel : (e : Error) → channel (channel e) ≡ channel e
  channel-channel e = rw (channel-root e) (channel-root _ ∙ ap sentinel (carried_again (root e)))

  pub channel_not_found :
      from_grpc_error g (to_grpc_error g (sentinel Sentinel.not_found))
      ≡ sentinel Sentinel.not_found
  unfolding channel
  channel_not_found = channel-root (sentinel Sentinel.not_found)

  pub channel_sentinel :
      (s : Sentinel)
      → from_grpc_error g (to_grpc_error g (sentinel s)) ≡ sentinel (carried (some s))
  unfolding channel
  channel_sentinel s = channel-root (sentinel s)
