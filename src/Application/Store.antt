-- ===== src/Application/Store.antt =====
-- `DBApplicationStore` of internal/repository/db/application.go, method by method. A result that
-- breaks off is taken for a whole one.
use slps_team.Prelude.{
  is_one_of, ℕ, suc, String, Bool, true, false, not, ◌&&◌, ◌||◌, ◌==◌, leb, any, List, ◌∷◌, map,
  keep, Option, none, some, if◌then◌else◌,
}
use slps_team.Prelude.Int.{ℤ}
use slps_team.Prelude.Sort.{sort}
use slps_team.Prelude.Strings.{equals}
use slps_team.Flow.{Action, pure, ◌>>=◌}
use slps_team.Paginate.{limit_offset}
use slps_team.Sql.{Db, exec, query, unchecked_rows}
use slps_team.Application.{
  ApplicationStatus, read_status, is_category, Application, ApplicationRow, TempSessionInfo,
  ApplicationTables,
}

abbrev pub Method : Type 0 → Type 0
Method A = Action (Db ApplicationTables) A

-- `if TempSessionInfo == nil { TempSessionInfo = &domain.TempSessionInfo{} }`
abbrev pub info_or_empty : Option TempSessionInfo → TempSessionInfo
info_or_empty none = record { user_id = none; temp_session_id = none }
info_or_empty (some info) = info

-- `=` where either side may be NULL.
abbrev pub same_user : Option ℕ → Option ℕ → Bool
same_user (some u) (some v) = u == v
same_user u v = false

abbrev pub same_session : Option String → Option String → Bool
same_session (some s) (some t) = equals s t
same_session s t = false

-- `ORDER BY created_at DESC`
abbrev pub newer : ApplicationRow → ApplicationRow → Bool
newer r q = leb q.application.created_at r.application.created_at

-- `WHERE author_id=$1 OR temp_session_id =$2`
abbrev pub is_own : TempSessionInfo → ApplicationRow → Bool
is_own info r =
    same_user r.application.author_id info.user_id
    || same_session r.temp_session_id info.temp_session_id

-- The columns that both queries select.
abbrev pub shown : ApplicationRow → Application
shown r = r.application

unfoldable pub get_applications_rows : ℤ → ℤ → Method (List Application)
get_applications_rows limit offset = do
  rows ← query λ t. limit_offset limit offset (sort newer t.applications)
  apps ← unchecked_rows rows
  pure (map shown apps)

unfoldable pub get_applications_by_user : Option TempSessionInfo → ℤ → ℤ → Method (List Application)
get_applications_by_user ctx limit offset = do
  rows ←
      query λ t.
        limit_offset limit offset (sort newer (keep (is_own (info_or_empty ctx)) t.applications))
  apps ← unchecked_rows rows
  pure (map shown apps)

abbrev pub has_id : ℕ → ApplicationRow → Bool
has_id id r = r.application.id == id

-- Each update also sets updated_at, by the trigger set_updated_at.
abbrev pub with_text : ℕ → String → ℕ → ApplicationRow → ApplicationRow
with_text id new_text now r =
    if has_id id r
    then record r { application = record r.application { text = new_text; updated_at = now } }
    else r

abbrev pub update_text : ℕ → String → ℕ → ApplicationTables → Option (Unit {0} × ApplicationTables)
update_text id new_text now t =
    some (tt, record t { applications = map (with_text id new_text now) t.applications })

unfoldable pub update_application_text_row : ℕ → String → Method (Unit {0})
update_application_text_row id new_text = exec λ now t. update_text id new_text now t

abbrev pub with_status : ℕ → ApplicationStatus → ℕ → ApplicationRow → ApplicationRow
with_status id status now r =
    if has_id id r
    then record r { application = record r.application { status = status; updated_at = now } }
    else r

-- The text of a status is read before any row is looked at.
abbrev pub update_status :
    ℕ → Option ApplicationStatus → ℕ → ApplicationTables → Option (Unit {0} × ApplicationTables)
update_status id none now t = none
update_status id (some status) now t =
    some (tt, record t { applications = map (with_status id status now) t.applications })

unfoldable pub update_application_status_row : ℕ → String → Method (Unit {0})
update_application_status_row id new_status =
    exec λ now t. update_status id (read_status new_status) now t

-- The foreign key of author_id.
abbrev pub is_reference : List ℕ → Option ℕ → Bool
is_reference users none = true
is_reference users (some u) = is_one_of users u

-- What a request brings for a new application.
pub record Draft : Type 0 where
  pub text : String
  pub category : String
  pub email_reg : String
  pub email_feed_back : String

abbrev pub new_row : TempSessionInfo → Draft → ℕ → ApplicationTables → ApplicationRow
new_row info app now t = record {
  application = record {
    id = t.next_id;
    status = ApplicationStatus.opened;
    category = app.category;
    text = app.text;
    author_id = info.user_id;
    created_at = now;
    updated_at = now;
    email_reg = app.email_reg;
    email_feed_back = app.email_feed_back;
  };
  temp_session_id = info.temp_session_id;
}

-- `INSERT INTO applications … RETURNING id`
abbrev pub insert_application :
    TempSessionInfo → Draft → ℕ → ApplicationTables → Option (ℕ × ApplicationTables)
insert_application info app now t =
    if is_category app.category && is_reference t.users info.user_id
    then some (
      t.next_id,
      record t { applications = new_row info app now t ∷ t.applications; next_id = suc t.next_id },
    )
    else none

unfoldable pub create_application_row : Option TempSessionInfo → Draft → Method ℕ
create_application_row ctx app = exec λ now t. insert_application (info_or_empty ctx) app now t

-- `SET author_id = $1, temp_session_id = NULL WHERE temp_session_id = $2`
abbrev pub merged : TempSessionInfo → ℕ → ApplicationRow → ApplicationRow
merged info now r =
    if same_session r.temp_session_id info.temp_session_id
    then record {
      application = record r.application { author_id = info.user_id; updated_at = now };
      temp_session_id = none;
    }
    else r

abbrev pub merge_rows :
    TempSessionInfo → ℕ → ApplicationTables → Option (Unit {0} × ApplicationTables)
merge_rows info now t =
    if not (any (λ r. same_session r.temp_session_id info.temp_session_id) t.applications)
      || is_reference t.users info.user_id
    then some (tt, record t { applications = map (merged info now) t.applications })
    else none

unfoldable pub merge_temp_session_row : Option TempSessionInfo → Method (Unit {0})
merge_temp_session_row ctx = exec λ now t. merge_rows (info_or_empty ctx) now t
