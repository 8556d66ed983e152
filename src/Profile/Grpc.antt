-- ===== src/Profile/Grpc.antt =====
-- `GrpcProfileHandler` of internal/grpc/profile.go, method by method. `UpdateHeader` calls
-- `UpdateAvatar` of the service.
use slps_team.Prelude.{ℕ, List, Option}
use slps_team.Prelude.Int.{ℤ}
use slps_team.Errors.Status.{GrpcStatus}
use slps_team.Grpc.{Reply, serve}
use slps_team.Uploads.{File, Names}
use slps_team.Profile.{ProfileRow, Profile, ShortProfile}
use slps_team.Profile.Service.{
  Clients, World, create_profile, update_profile, update_avatar, get_profile, delete_avatar,
  short_profile_map, short_profiles, other_short_profiles,
}

module _ (g : GrpcStatus) where
  -- A method of the server.
  abbrev pub Endpoint : Type 0 → Type 0
  Endpoint A = World → Reply g A × World

  module _ (c : Clients) where
    unfoldable pub serve_create_profile : ProfileRow → Endpoint (Unit {0})
    serve_create_profile p = serve g (create_profile c p)

    unfoldable pub serve_update_profile : Names → ProfileRow → ℕ → List File → Endpoint (Unit {0})
    serve_update_profile names p user_id files = serve g (update_profile c names p user_id files)

  module _ (names : Names) where
    unfoldable pub serve_update_avatar : ℕ → List File → Endpoint (Unit {0})
    serve_update_avatar user_id avatar = serve g (update_avatar names user_id avatar)

    unfoldable pub serve_update_header : ℕ → List File → Endpoint (Unit {0})
    serve_update_header user_id header = serve g (update_avatar names user_id header)

  unfoldable pub serve_get_profile : ℕ → ℕ → Endpoint Profile
  serve_get_profile self_user_id user_id = serve g (get_profile self_user_id user_id)

  unfoldable pub serve_delete_avatar : ℕ → Endpoint (Unit {0})
  serve_delete_avatar user_id = serve g (delete_avatar user_id)

  unfoldable pub serve_short_profile_map : List ℕ → Endpoint (ℕ → Option ShortProfile)
  serve_short_profile_map user_ids = serve g (short_profile_map user_ids)

  unfoldable pub serve_short_profiles : List ℕ → Endpoint (List ShortProfile)
  serve_short_profiles user_ids = serve g (short_profiles user_ids)

  unfoldable pub serve_other_short_profiles : List ℕ → ℤ → ℤ → Endpoint (List ShortProfile)
  serve_other_short_profiles user_ids limit offset =
      serve g (other_short_profiles user_ids limit offset)
