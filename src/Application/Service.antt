-- ===== src/Application/Service.antt =====
-- `ApplicationService` of internal/service/application.go. The client of the auth service is a
-- parameter. Logging is left out.
use slps_team.Prelude.{ℕ, String, not, ◌&&◌, List, Option, none, some, if◌then◌else◌}
use slps_team.Prelude.Strings.{equals}
use slps_team.Errors.{Error, Sentinel, foreign}
use slps_team.Flow.{Result, ok, err, lift, return_if, ◌>>=◌, ◌>>◌}
use slps_team.Paginate.{PaginateQueryParams, validate_pagination_params}
use slps_team.Application.{Application, Context}
use slps_team.Application.Store.{
  Method, Draft, get_applications_rows, get_applications_by_user, update_application_text_row,
  update_application_status_row, create_application_row, merge_temp_session_row,
}

-- `userID, _ := ctx.Value(domain.UserIDKey).(int32)`
abbrev pub user_or_zero : Option ℕ → ℕ
user_or_zero none = 0
user_or_zero (some u) = u

-- `resp.Role` where the call has failed: `resp` is nil.
abbrev pub nil_response : Error
nil_response = foreign "panic"

-- `role := resp.Role`, which stands before the test of the error.
abbrev pub role_read : Result String → Result String
role_read (ok role) = ok role
role_read (err e) = err nil_response

module _ (get_user_role : ℕ → Result String) where
  unfoldable pub get_applications : Context → PaginateQueryParams → Method (List Application)
  get_applications ctx params =
      let (offset, limit) = validate_pagination_params params in
      (do
        role ← lift (role_read (get_user_role (user_or_zero ctx.user)))
        if equals role "admin"
            then get_applications_rows limit offset
            else get_applications_by_user ctx.info limit offset)

  unfoldable pub update_application_status : Context → ℕ → String → Method (Unit {0})
  update_application_status ctx id new_status = do
    role ← lift (role_read (get_user_role (user_or_zero ctx.user)))
    return_if (not (equals role "admin") && not (equals new_status "closed")) Sentinel.access_denied
    update_application_status_row id new_status

unfoldable pub update_application_text : ℕ → String → Method (Unit {0})
update_application_text id new_text = update_application_text_row id new_text

unfoldable pub create_application : Context → Draft → Method ℕ
create_application ctx application = create_application_row ctx.info application

unfoldable pub merge_temp_session : Context → Method (Unit {0})
merge_temp_session ctx = merge_temp_session_row ctx.info
