-- ===== src/Errors/Tests.antt =====
-- Each theorem on errors at an input that meets its hypotheses.
use slps_team.Prelude.{String, ◌≡◌, refl, ◌↔◌, some}
use slps_team.Errors.{Error, Sentinel, sentinel, wrapped, map_error_to_http}
use slps_team.Errors.Status.{Code, GrpcStatus}
use slps_team.Errors.Channel.{root, IsLost, channel, http-channel}

-- A status that is its code and its message.
abbrev plain_status : GrpcStatus
plain_status = record {
  RpcError = Code × String;
  error = λ c m. (c, m);
  from_error = λ r. some r;
  from_error-error = λ c m. refl;
}

abbrev no_post : Error
no_post = wrapped "get post" (sentinel Sentinel.post_not_found)

http-channel_example :
    (map_error_to_http (channel plain_status no_post) ≡ map_error_to_http no_post)
    ↔ (¬ IsLost (root no_post))
http-channel_example = http-channel plain_status no_post
