-- ===== src/Application/Owners.antt =====
-- Every application has somebody who can see it: an author, or a temporary session.
pub mod Rows
use slps_team.Prelude.{
  ℕ, String, arith, ◌≡◌, refl, Bool, true, false, not, ◌&&◌, all, keep, map, List, [], ◌∷◌, Option,
  none, some, if◌then◌else◌, Bool-cases, inl, inr, zero, suc,
}
use slps_team.Prelude.Int.{ℤ}
use slps_team.Prelude.Sort.{sort}
use slps_team.Prelude.Strings.{equals}
use slps_team.Flow.{Result, ok, err, pure, lift, return_if, ◌>>=◌, ◌>>◌}
use slps_team.Flow.Keeps.{Keeps-bind, Keeps-pure, Keeps-raise, Keeps-return_if}
use slps_team.Errors.{Sentinel}
use slps_team.Paginate.{PaginateQueryParams, validate_pagination_params, limit_offset}
use slps_team.Sql.{Db, query, unchecked_rows}
use slps_team.Sql.Keeps.{Preserves, Preserves-exec, Preserves-query, Preserves-unchecked_rows}
use slps_team.Application.{
  read_status, ApplicationStatus, ApplicationRow, Context, TempSessionInfo, ApplicationTables,
}
use slps_team.Application.Store.{
  Method, Draft, info_or_empty, with_text, update_text, update_application_text_row, with_status,
  update_status, update_application_status_row, insert_application, create_application_row, is_own,
  newer, shown, merged, merge_rows, merge_temp_session_row, get_applications_rows,
  get_applications_by_user,
}
use slps_team.Application.Service.{
  update_application_status, update_application_text, create_application, merge_temp_session,
  get_applications, user_or_zero, role_read,
}
use slps_team.Application.Http.{
  both_nil, is_empty, with_new_id, serve_create_application, started_merge, run_merge, panicked,
  temp_session_middleware, get_temp_session_id,
}
use slps_team.Application.Owners.Rows.{
  IsOwned, create-IsOwned, text-IsOwned, status-IsOwned, merge-IsOwned,
}

-- What is asked of the handlers; a first application comes with the UUID that it would be given.
pub data Visit : Type 0 where
  posts : String → Draft → Visit
  rewrites : ℕ → String → Visit
  sets : ℕ → String → Visit
  lists : PaginateQueryParams → Visit

-- A request: its user, its cookie, and what the auth service answers to it.
pub record Asked : Type 0 where
  pub user : Option ℕ
  pub cookie : Option String
  pub get_user_role : ℕ → Result String
  pub visit : Visit

unfoldable pub handle : (ℕ → Result String) → Visit → Context → Method (Unit {0})
handle roles (posts new_id draft) ctx =
    (λ db. (serve_create_application new_id ctx draft db).1) >>= λ _. pure tt
handle roles (rewrites id text) ctx = update_application_text id text
handle roles (sets id status) ctx = update_application_status roles ctx id status
handle roles (lists params) ctx = get_applications roles ctx params >>= λ _. pure tt

-- A request is served, or one of the goroutines that are under way runs: the n-th.
pub data Event : Type 0 where
  asks : Asked → Event
  merges : ℕ → Event

-- The tables, and the contexts of the goroutines under way.
pub record Site : Type 0 where
  pub db : Db ApplicationTables
  pub goroutines : List Context

abbrev pub with_started : Option Context → List Context → List Context
with_started none ctxs = ctxs
with_started (some ctx) ctxs = ctx ∷ ctxs

abbrev pub after_visit :
    Option Context × (Result (Unit {0}) × Db ApplicationTables) → List Context → Site
after_visit (started, (answer, db)) ctxs = record {
  db = db;
  goroutines = with_started started ctxs;
}

abbrev pub after_merge : ℕ → List Context → Db ApplicationTables → Site
after_merge n [] db = record { db = db; goroutines = [] }
after_merge zero (ctx ∷ ctxs) db = record { db = run_merge ctx db; goroutines = ctxs }
after_merge (suc n) (ctx ∷ ctxs) db =
    let site = after_merge n ctxs db in record site { goroutines = ctx ∷ site.goroutines }

unfoldable pub run_visits : (String → Option String) → List Event → Site → Site
run_visits parse [] site = site
run_visits parse (asks r ∷ es) site = run_visits parse es (
    after_visit
      (temp_session_middleware parse r.user r.cookie (handle r.get_user_role r.visit) site.db)
      site.goroutines)
run_visits parse (merges n ∷ es) site = run_visits parse es (after_merge n site.goroutines site.db)

Owns : {A : Type 0} → Method A → Type 0
Owns m = Preserves IsOwned m

create-Owns :
    (new_id : String) (user : Option ℕ) (info : TempSessionInfo) (draft : Draft)
    → Owns (λ db.
      (serve_create_application new_id (record { user = user; info = some info }) draft db).1)
unfolding Owns serve_create_application create_application create_application_row
create-Owns new_id user info draft =
    Preserves-exec IsOwned _ λ now t n t' h e. create-IsOwned new_id info draft now t n t' h e

text-Owns : (id : ℕ) (text : String) → Owns (update_application_text id text)
unfolding Owns update_application_text update_application_text_row
text-Owns id text = Preserves-exec IsOwned _ λ now t a t' h e. text-IsOwned id text now t a t' h e

status_row-Owns : (id : ℕ) (status : String) → Owns (update_application_status_row id status)
unfolding Owns update_application_status_row
status_row-Owns id status =
    Preserves-exec IsOwned _ λ now t a t' h e. status-IsOwned id (read_status status) now t a t' h e

refused-Owns :
    (b : Bool) (id : ℕ) (status : String)
    → Owns (return_if b Sentinel.access_denied >> update_application_status_row id status)
unfolding Owns
refused-Owns b id status = Keeps-bind _ _ (Keeps-return_if _ _) λ _. status_row-Owns id status

status-Owns :
    (x : Result String) (id : ℕ) (status : String)
    → Owns (
        lift (role_read x) >>= λ role.
        return_if (not (equals role "admin") && not (equals status "closed")) Sentinel.access_denied
        >> update_application_status_row id status)
unfolding Owns
status-Owns (err d) id status = Keeps-raise _
status-Owns (ok role) id status =
    Keeps-bind _ _ (Keeps-pure role)
      λ _. refused-Owns (not (equals role "admin") && not (equals status "closed")) id status

listing-Owns :
    (rows : ApplicationTables → Option (List ApplicationRow))
    → Owns (do found ← query rows; apps ← unchecked_rows found; pure (map shown apps))
unfolding Owns
listing-Owns rows = Keeps-bind _ _ (Preserves-query IsOwned rows) λ found.
    Keeps-bind _ _ (Preserves-unchecked_rows IsOwned found) λ apps. Keeps-pure (map shown apps)

by_role-Owns :
    (b : Bool) (info : Option TempSessionInfo) (limit offset : ℤ)
    → Owns (
        if b
        then get_applications_rows limit offset
        else get_applications_by_user info limit offset)
unfolding Owns get_applications_rows get_applications_by_user
by_role-Owns true info limit offset =
    listing-Owns λ t. limit_offset limit offset (sort newer t.applications)
by_role-Owns false info limit offset =
    listing-Owns λ t.
      limit_offset limit offset (sort newer (keep (is_own (info_or_empty info)) t.applications))

list-Owns :
    (x : Result String) (info : Option TempSessionInfo) (limit offset : ℤ)
    → Owns (
        lift (role_read x) >>= λ role.
        if equals role "admin"
        then get_applications_rows limit offset
        else get_applications_by_user info limit offset)
unfolding Owns
list-Owns (err d) info limit offset = Keeps-raise _
list-Owns (ok role) info limit offset =
    Keeps-bind _ _ (Keeps-pure role) λ _. by_role-Owns (equals role "admin") info limit offset

handle-Owns :
    (roles : ℕ → Result String) (v : Visit) (user : Option ℕ) (info : TempSessionInfo)
    → Owns (handle roles v (record { user = user; info = some info }))
unfolding Owns handle update_application_status get_applications
handle-Owns roles (posts new_id draft) user info =
    Keeps-bind _ _ (create-Owns new_id user info draft) λ _. Keeps-pure _
handle-Owns roles (rewrites id text) user info = text-Owns id text
handle-Owns roles (sets id status) user info = status-Owns (roles (user_or_zero user)) id status
handle-Owns roles (lists params) user info =
    let (offset, limit) = validate_pagination_params params in
    Keeps-bind _ _ (list-Owns (roles (user_or_zero user)) (some info) limit offset)
      λ _. Keeps-pure _

abbrev pub is_known : Option ℕ → Bool
is_known none = false
is_known (some u) = true

-- The goroutine merges for a user.
abbrev pub has_user : Context → Bool
has_user ctx = is_known (info_or_empty ctx.info).user_id

merge-Owns :
    (ctx : Context) (db : Db ApplicationTables)
    → has_user ctx ≡ true
    → IsOwned db.tables
    → IsOwned (run_merge ctx db).tables
unfolding run_merge merge_temp_session merge_temp_session_row
merge-Owns ctx db known h = by_user (info_or_empty ctx.info).user_id refl
  where
    by_user :
        (u : Option ℕ) → (info_or_empty ctx.info).user_id ≡ u → IsOwned (run_merge ctx db).tables
    by_user none e = absurd (cc)
    by_user (some u) e =
        (Preserves-exec IsOwned (λ now t. merge_rows (info_or_empty ctx.info) now t)
            λ now t a t' i o. merge-IsOwned (info_or_empty ctx.info) u now t a t' e i o).at
          db h

-- Every application has an owner, and every goroutine under way a user.
pub record IsSound (site : Site) : Type 0 where
  pub owned : IsOwned site.db.tables
  pub known : all has_user site.goroutines ≡ true

merge-IsSound :
    (n : ℕ) (ctxs : List Context) (db : Db ApplicationTables)
    → all has_user ctxs ≡ true
    → IsOwned db.tables
    → IsSound (after_merge n ctxs db)
merge-IsSound n [] db known h = record { owned = h; known = refl }
merge-IsSound zero (ctx ∷ ctxs) db known h = record {
  owned = merge-Owns ctx db (ground (arith, known)) h;
  known = ground (arith, known);
}
merge-IsSound (suc n) (ctx ∷ ctxs) db known h =
    let rest = merge-IsSound n ctxs db (ground (arith, known)) h in
    record { owned = rest.owned; known = ground (arith, known, rest.known) }

visit-IsSound :
    (parse : String → Option String) (r : Asked) (site : Site)
    → IsSound site
    → IsSound (
        after_visit
          (temp_session_middleware parse r.user r.cookie (handle r.get_user_role r.visit) site.db)
          site.goroutines)
unfolding Owns temp_session_middleware
visit-IsSound parse r site s = record {
  owned = (handle-Owns r.get_user_role r.visit r.user _).at site.db s.owned;
  known = by_both r.user (get_temp_session_id parse r.cookie) _;
}
  where
    by_both :
        (user : Option ℕ) (ts : Option String) (answer : Result (Unit {0}))
        → all has_user (
            with_started
              (started_merge
                (record {
                  user = user;
                  info = some (record { user_id = user; temp_session_id = ts });
                })
                user
                ts
                answer)
              site.goroutines)
          ≡ true
    by_both none ts answer = s.known
    by_both (some u) none answer = s.known
    by_both (some u) (some ts) answer = elim (Bool-cases (panicked answer)) [
      | inl e ↦ simp e s.known
      | inr e ↦ simp e s.known
    ]

-- In any environment, whatever is asked of the handlers through the middleware, by guests or users,
-- with any cookies, whatever the auth service answers, and whenever the goroutines that merge a
-- session run, before or after any later request: if every application has an author or a temporary
-- session, and the goroutines under way have been started for users, then so it is afterwards.
pub run_visits-IsSound :
    (parse : String → Option String) (es : List Event) (site : Site)
    → IsSound site
    → IsSound (run_visits parse es site)
unfolding run_visits
run_visits-IsSound parse [] site s = s
run_visits-IsSound parse (asks r ∷ es) site s =
    run_visits-IsSound parse es _ (visit-IsSound parse r site s)
run_visits-IsSound parse (merges n ∷ es) site s =
    run_visits-IsSound parse es _ (merge-IsSound n site.goroutines site.db s.known s.owned)
