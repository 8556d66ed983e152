-- ===== src/Auth/Users.antt =====
-- `DBUserStore` of internal/repository/db/user.go, on the table users of
-- db/migrations/20251008113339_init_db.up.sql. Logging is left out.
use slps_team.Prelude.{
  ℕ, suc, String, Bool, true, false, not, ◌&&◌, ◌==◌, List, [], ◌∷◌, any, leb, Option, none, some,
  if◌then◌else◌,
}
use slps_team.Prelude.Strings.{equals}
use Prim.Native.String.{count}
use slps_team.Errors.{Sentinel}
use slps_team.Flow.{ok, err, Action, pure, fail, ◌>>=◌, ◌>>◌}
use slps_team.Sql.{Db, exec, query, wrap_error, driver_error}
use slps_team.Auth.{User}

-- The rows of the table, and the next value of its identity column. The phone and the times of a
-- row are not read by this store.
pub record Users : Type 0 where
  pub rows : List User
  pub next_id : ℕ

abbrev pub Method : Type 0 → Type 0
Method A = Action (Db Users) A

-- `email TEXT UNIQUE`, `LENGTH(email) <= 254` and `LENGTH(password) >= 8`.
unfoldable pub admits : String → String → List User → Bool
admits email password rows =
    not (any (λ u. equals u.email email) rows) && leb (count email) 254 && leb 8 (count password)

-- `INSERT INTO users (email, password) VALUES ($1, $2) RETURNING id`; the role is the default.
unfoldable pub insert_user : String → String → Users → Option (ℕ × Users)
insert_user email password t =
    if admits email password t.rows
    then some (
      t.next_id,
      record {
        rows =
            record { id = t.next_id; email = email; password = password; role = "member" } ∷ t.rows;
        next_id = suc t.next_id;
      },
    )
    else none

-- `tx.Commit()`: what the transaction has written is kept, or all of it is lost. The identity
-- column does not go back.
abbrev pub commit : List User → Method (Unit {0})
commit before db =
    let n = db.statements in
    if db.env.fails n
    then (
      err driver_error,
      record db { tables = record (db.tables) { rows = before }; statements = suc n },
    )
    else (ok tt, record db { statements = suc n })

-- The statements of the transaction that is begun on these rows.
abbrev pub insert_and_commit : String → String → List User → Method ℕ
insert_and_commit email password before = do
  user_id ← wrap_error "insert user" (exec λ now t. insert_user email password t)
  wrap_error "commit tx" (commit before)
  pure user_id

unfoldable pub create_user : String → String → Method ℕ
create_user email password db =
    (do
      _ ← wrap_error "begin tx" (exec {A = Unit {0}} λ now t. some (tt, t))
      insert_and_commit email password db.tables.rows)
      db

abbrev pub select_user : (User → Bool) → List User → Option User
select_user test [] = none
select_user test (u ∷ us) = if test u then some u else select_user test us

-- `sql.ErrNoRows` becomes `ErrNotFound`; another error is passed on.
abbrev pub user_or_not_found : Option User → Method User
user_or_not_found none = fail Sentinel.not_found
user_or_not_found (some u) = pure u

-- The role is not selected, and stays "".
unfoldable pub get_user_by_email : String → Method User
get_user_by_email email = do
  found ← query λ t. some (select_user (λ u. equals u.email email) t.rows)
  user ← user_or_not_found found
  pure (record user { role = "" })

unfoldable pub get_user_by_id : ℕ → Method User
get_user_by_id user_id = do
  found ← query λ t. some (select_user (λ u. u.id == user_id) t.rows)
  user_or_not_found found

unfoldable pub is_user_exists : ℕ → Method Bool
is_user_exists user_id = query λ t. some (any (λ u. u.id == user_id) t.rows)

-- The user of the temporary session, if the context has one.
unfoldable pub is_user_admin : Option ℕ → Method Bool
is_user_admin none = pure false
is_user_admin (some user_id) = do
  user ← get_user_by_id user_id
  pure (if equals user.role "admin" then true else false)
