-- ===== src/Application/Http.antt =====
-- `CreateApplication` of internal/handler/application.go, and `TempSessionMiddleware` and
-- `GetTempSessionID` of internal/handler/middleware.go. The decoded body, the parser of UUIDs and the
-- new UUID are given.
use slps_team.Prelude.{ℕ, String, Bool, true, false, Option, none, some, if◌then◌else◌}
use slps_team.Prelude.Strings.{equals}
use slps_team.Errors.{foreign}
use slps_team.Flow.{Result, err, ignoring}
use slps_team.Sql.{Db}
use slps_team.Application.{TempSessionInfo, Context, ApplicationTables}
use slps_team.Application.Store.{Method, Draft, info_or_empty}
use slps_team.Application.Service.{create_application, merge_temp_session}

-- `uuid.Parse` of the cookie temp_session_id, if there is one.
unfoldable pub get_temp_session_id : (String → Option String) → Option String → Option String
get_temp_session_id parse none = none
get_temp_session_id parse (some cookie) = parse cookie

abbrev pub both_nil : Option ℕ → Option String → Bool
both_nil none none = true
both_nil user session = false

abbrev pub is_empty : TempSessionInfo → Bool
is_empty info = both_nil info.user_id info.temp_session_id

-- A guest's first application gives the temporary session an id; it is written through the pointer,
-- so that the store sees it where the context has one.
abbrev pub with_new_id : String → TempSessionInfo → TempSessionInfo
with_new_id new_id info =
    if is_empty info then record info { temp_session_id = some new_id } else info

abbrev pub written_info : String → Option TempSessionInfo → Option TempSessionInfo
written_info new_id none = none
written_info new_id (some info) = some (with_new_id new_id info)

-- The cookie that the answer sets.
abbrev pub new_cookie : String → Option TempSessionInfo → Option String
new_cookie new_id info = if is_empty (info_or_empty info) then some new_id else none

-- The handler, once the body has been decoded: its cookie, and the id of the application.
unfoldable pub serve_create_application :
    String
    → Context
    → Draft
    → Db ApplicationTables
    → Option String × (Result ℕ × Db ApplicationTables)
serve_create_application new_id ctx draft db = (
  new_cookie new_id ctx.info,
  create_application (record ctx { info = written_info new_id ctx.info }) draft db,
)

-- The context that the middleware gives to the next handler.
abbrev pub temp_session_context : (String → Option String) → Option ℕ → Option String → Context
temp_session_context parse user cookie = record {
  user = user;
  info = some (record { user_id = user; temp_session_id = get_temp_session_id parse cookie });
}

-- A nil dereference ends the request without an answer.
abbrev pub panicked : {A : Type 0} → Result A → Bool
panicked (err (foreign text)) = equals text "panic"
panicked answer = false

-- The goroutine that merges the session, started after the next handler, with its context; after a
-- panic it is not started.
abbrev pub started_merge :
    {A : Type 0} → Context → Option ℕ → Option String → Result A → Option Context
started_merge ctx (some user) (some ts) answer = if panicked answer then none else some ctx
started_merge ctx user ts answer = none

-- The goroutine that has been started, if any, in which case the cookie is taken back; and the answer
-- and the tables that the next handler leaves.
unfoldable pub temp_session_middleware :
    {A : Type 0}
    → (String → Option String)
    → Option ℕ
    → Option String
    → (Context → Method A)
    → Db ApplicationTables
    → Option Context × (Result A × Db ApplicationTables)
unfolding get_temp_session_id
temp_session_middleware parse user cookie next db =
    let ctx = temp_session_context parse user cookie in
    let served = next ctx db in
    (started_merge ctx user (get_temp_session_id parse cookie) served.0, served)

-- What the goroutine does: its error is only logged.
unfoldable pub run_merge : Context → Db ApplicationTables → Db ApplicationTables
run_merge ctx db = ignoring (merge_temp_session ctx) db
