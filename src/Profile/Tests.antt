-- ===== src/Profile/Tests.antt =====
-- Runs of the profile service, and each theorem at an input that meets its hypotheses.
use slps_team.Prelude.{
  String, if◌then◌else◌, ◌≡◌, refl, true, false, ◌==◌, keep, List, [], ◌∷◌, none, some,
}
use slps_team.Prelude.Strings.{equals}
use slps_team.Errors.Status.{Code, GrpcStatus}
use slps_team.Flow.{ok}
use slps_team.Sql.Calm.{calm}
use slps_team.Uploads.{
  File, Names, upload_file, upload_rest, upload_files, delete_file, delete_files,
  handle_file_upload,
}
use slps_team.Backend.{on_db, on_disk}
use slps_team.Profile.{ProfileRow}
use slps_team.Profile.Table.{is_of, fits_checks, update_profiles}
use slps_team.Profile.Store.{get_profile_row, get_avatar, update_avatar_row}
use slps_team.Profile.Service.{Clients, World, replace_file, store_avatar, update_avatar}
use slps_team.Profile.Grpc.{serve_update_header}
use slps_team.Profile.Owners.Requests.{
  updates, avatars, headers, avatar_deletes, Asked, run_profiles,
}
use slps_team.Profile.Owners.{run_profiles-IsUntouched, headers_of, serve_update_header-headers}

abbrev one_name : Names
one_name = record {
  uuid = λ n. "8f14e45f-ceea-467f-a0b1-9d4c1f3a5b60";
  ext = λ s. ".png";
  uuid_length = λ n. refl;
}

abbrev code_and_text : GrpcStatus
code_and_text = record {
  RpcError = Code × String;
  error = λ c m. (c, m);
  from_error = λ r. some r;
  from_error-error = λ c m. refl;
}

abbrev plain : Clients
plain = record { validate_struct = λ p. true; index_profile = λ name id. ok tt }

abbrev anna : ProfileRow
anna = record {
  user_id = 1;
  first_name = "Anna";
  last_name = "K";
  avatar_path = some "anna.png";
  header_path = some "sea.png";
  about_myself = none;
  gender = "f";
  dob = 0;
}

abbrev boris : ProfileRow
boris = record anna { user_id = 2; first_name = "Boris"; avatar_path = none; gender = "m" }

abbrev start : World
start = record {
  db = record {
    tables = record {
      profiles = anna ∷ boris ∷ [];
      friends = record { rows = []; users = 1 ∷ 2 ∷ [] };
    };
    statements = 0;
    env = calm;
  };
  disk = record {
    files = λ n. if equals n "anna.png" then some "a" else none;
    drawn = 0;
    write_fails = λ n. false;
    torn = λ n. none;
    remove_fails = λ n. false;
  };
}

abbrev picture : File
picture = record { filename = "cat.png"; content = "cat" }

abbrev requests : List Asked
requests =
    record { caller = 1; request = avatars (picture ∷ []) }
    ∷ record { caller = 1; request = updates boris [] }
    ∷ record { caller = 1; request = headers (picture ∷ []) }
    ∷ record { caller = 1; request = avatar_deletes }
    ∷ []

run_profiles-IsUntouched_example :
    keep (is_of 2) (run_profiles plain one_name requests start).db.tables.profiles
    ≡ keep (is_of 2) start.db.tables.profiles
run_profiles-IsUntouched_example = run_profiles-IsUntouched plain one_name 2 requests start refl

-- The new header of user 1 is the avatar.
header_is_avatar :
    (serve_update_header code_and_text one_name 1 (picture ∷ []) start).1.db.tables.profiles
    ≡ record anna { avatar_path = some "8f14e45f-ceea-467f-a0b1-9d4c1f3a5b60.png" } ∷ boris ∷ []
unfolding serve_update_header update_avatar store_avatar get_avatar get_profile_row replace_file
    handle_file_upload upload_files upload_rest upload_file delete_files delete_file on_db on_disk
    update_avatar_row update_profiles fits_checks equals
header_is_avatar = refl

serve_update_header-headers_example :
    headers_of (serve_update_header code_and_text one_name 1 (picture ∷ []) start).1.db.tables
    ≡ headers_of start.db.tables
serve_update_header-headers_example =
    serve_update_header-headers code_and_text one_name 1 (picture ∷ []) start

-- The update of the row fails.
abbrev failing : World
failing = record start { db = record (start.db) { env = record calm { fails = λ n. n == 1 } } }
