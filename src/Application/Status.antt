-- ===== src/Application/Status.antt =====
-- The status of an application over histories of requests, in any environment.
pub mod Rows
use slps_team.Prelude.{
  ℕ, String, ap, arith, ◌≡◌, refl, Bool, true, false, not, ◌&&◌, any, map, List, [], ◌∷◌, Option,
  none, some, Bool-cases, inl, inr,
}
use slps_team.Prelude.Strings.{equals, equals_sound}
use slps_team.Errors.{Sentinel}
use slps_team.Flow.{Result, ok, err, pure, lift, return_if, ◌>>=◌, ◌>>◌}
use slps_team.Flow.Keeps.{Keeps-bind, Keeps-pure, Keeps-raise, Keeps-return_if}
use slps_team.Sql.{Db}
use slps_team.Sql.Keeps.{Preserves, Preserves-exec}
use slps_team.Application.{
  ApplicationStatus, read_status, ApplicationRow, Context, TempSessionInfo, ApplicationTables,
}
use slps_team.Application.Store.{
  Method, Draft, info_or_empty, has_id, with_text, update_text, update_application_text_row,
  with_status, update_status, update_application_status_row, insert_application,
  create_application_row, merged, merge_rows, merge_temp_session_row,
}
use slps_team.Application.Service.{
  update_application_status, update_application_text, create_application, merge_temp_session,
  user_or_zero, role_read,
}
use slps_team.Application.Status.Rows.{
  closes, works, IsSettled, IsGentle, is_closed, is_in_work, text-IsGentle, closed-IsGentle,
  merged-IsGentle, closes-map, works-map, read_closed,
}

-- The requests that change the table, each with its context.
pub data Request : Type 0 where
  creates : Draft → Request
  rewrites : ℕ → String → Request
  sets : ℕ → String → Request
  merges : Request

-- A request, and what the auth service answers to it.
pub record Asked : Type 0 where
  pub context : Context
  pub get_user_role : ℕ → Result String
  pub request : Request

unfoldable pub perform : (ℕ → Result String) → Context → Request → Method (Unit {0})
perform roles ctx (creates draft) = create_application ctx draft >>= λ _. pure tt
perform roles ctx (rewrites id text) = update_application_text id text
perform roles ctx (sets id status) = update_application_status roles ctx id status
perform roles ctx merges = merge_temp_session ctx

unfoldable pub run_applications : List Asked → Db ApplicationTables → Db ApplicationTables
run_applications [] db = db
run_applications (r ∷ rs) db =
    run_applications rs (perform r.get_user_role r.context r.request db).1

abbrev pub is_admin : Result String → Bool
is_admin (ok role) = equals role "admin"
is_admin (err e) = false

abbrev pub asked_by_admin : Asked → Bool
asked_by_admin r = is_admin (r.get_user_role (user_or_zero r.context.user))

module _ (i j : ℕ) where
  create-IsSettled :
      (info : TempSessionInfo) (draft : Draft) (now : ℕ) (t : ApplicationTables) (n : ℕ)
      (t' : ApplicationTables)
      → IsSettled i j t
      → insert_application info draft now t ≡ some (n, t')
      → IsSettled i j t'
  create-IsSettled info draft now t n t' h e = record {
    closed = ground (arith, e, h.closed);
    idle = ground (arith, e, h.idle);
  }

  text-IsSettled :
      (id : ℕ) (text : String) (now : ℕ) (t : ApplicationTables) (a : Unit {0})
      (t' : ApplicationTables)
      → IsSettled i j t
      → update_text id text now t ≡ some (a, t')
      → IsSettled i j t'
  text-IsSettled id text now t a t' h e = record {
    closed = ground (arith, e, closes-map _ (text-IsGentle id text now) i t.applications h.closed);
    idle = ground (arith, e, works-map _ (text-IsGentle id text now) j t.applications h.idle);
  }

  status-IsSettled :
      (id : ℕ) (status : String) (now : ℕ) (t : ApplicationTables) (a : Unit {0})
      (t' : ApplicationTables)
      → equals status "closed" ≡ true
      → IsSettled i j t
      → update_status id (read_status status) now t ≡ some (a, t')
      → IsSettled i j t'
  status-IsSettled id status now t a t' c h e = by_text (read_status status) refl
    where
      by_text : (read : Option ApplicationStatus) → read_status status ≡ read → IsSettled i j t'
      by_text none r = absurd (ground (arith, e, r))
      by_text (some s) r =
          let it : s ≡ ApplicationStatus.closed = read_closed status s c r in
          record {
            closed =
                ground (
                  arith,
                  e,
                  r,
                  it,
                  closes-map _ (closed-IsGentle id now) i t.applications h.closed,
                );
            idle =
                ground
                  (arith, e, r, it, works-map _ (closed-IsGentle id now) j t.applications h.idle);
          }

  merge-IsSettled :
      (info : TempSessionInfo) (now : ℕ) (t : ApplicationTables) (a : Unit {0})
      (t' : ApplicationTables)
      → IsSettled i j t
      → merge_rows info now t ≡ some (a, t')
      → IsSettled i j t'
  merge-IsSettled info now t a t' h e = record {
    closed = ground (arith, e, closes-map _ (merged-IsGentle info now) i t.applications h.closed);
    idle = ground (arith, e, works-map _ (merged-IsGentle info now) j t.applications h.idle);
  }

  abbrev Settles : {A : Type 0} → Method A → Type 0
  Settles m = Preserves (IsSettled i j) m

  row-Settles :
      (id : ℕ) (status : String) (b c : Bool)
      → equals status "closed" ≡ b
      → c ≡ false
      → Settles (
          return_if (not c && not (equals status "closed")) Sentinel.access_denied
          >> update_application_status_row id status)
  unfolding update_application_status_row
  row-Settles id status true c closed guest = Keeps-bind _ _ (Keeps-return_if _ _) λ _.
      Preserves-exec (IsSettled i j) _
        λ now t a t' h o. status-IsSettled id status now t a t' closed h o
  row-Settles id status false c other guest = simp (other, guest) (Keeps-raise _)

  set-Settles :
      (x : Result String) (id : ℕ) (status : String)
      → is_admin x ≡ false
      → Settles (
          lift (role_read x) >>= λ role.
          return_if
            (not (equals role "admin") && not (equals status "closed"))
            Sentinel.access_denied
          >> update_application_status_row id status)
  set-Settles (err d) id status e = Keeps-raise _
  set-Settles (ok role) id status e =
      Keeps-bind _ _ (Keeps-pure role) λ _. row-Settles id status _ (equals role "admin") refl e

  perform-Settles :
      (roles : ℕ → Result String) (ctx : Context) (r : Request)
      → is_admin (roles (user_or_zero ctx.user)) ≡ false
      → Settles (perform roles ctx r)
  unfolding perform create_application create_application_row update_application_text
      update_application_text_row update_application_status merge_temp_session
      merge_temp_session_row
  perform-Settles roles ctx (creates draft) e =
      Keeps-bind _ _
        (Preserves-exec (IsSettled i j) _
          λ now t n t' h o. create-IsSettled (info_or_empty ctx.info) draft now t n t' h o)
        λ _. Keeps-pure _
  perform-Settles roles ctx (rewrites id text) e =
      Preserves-exec (IsSettled i j) _ λ now t a t' h o. text-IsSettled id text now t a t' h o
  perform-Settles roles ctx (sets id status) e =
      set-Settles (roles (user_or_zero ctx.user)) id status e
  perform-Settles roles ctx merges e =
      Preserves-exec (IsSettled i j) _
        λ now t a t' h o. merge-IsSettled (info_or_empty ctx.info) now t a t' h o

-- In any environment, whatever is asked and whatever the auth service answers: if none of the
-- requests is of an administrator, then an application that is closed stays closed, and one that is
-- not in work is not put in work.
pub run_applications-IsSettled :
    (i j : ℕ) (rs : List Asked) (db : Db ApplicationTables)
    → IsSettled i j db.tables
    → any asked_by_admin rs ≡ false
    → IsSettled i j (run_applications rs db).tables
unfolding run_applications
run_applications-IsSettled i j [] db h e = h
run_applications-IsSettled i j (r ∷ rs) db h e =
    let first : asked_by_admin r ≡ false = ground (arith, e) in
    let rest : any asked_by_admin rs ≡ false = ground (arith, e) in
    run_applications-IsSettled i j rs _
      ((perform-Settles i j r.get_user_role r.context r.request first).at db h) rest
