-- ===== src/Auth/UserTable.antt =====
-- The table users while the database answers: what `CreateUser` does to it, and the lookups.
use slps_team.Prelude.{
  ℕ, suc, String, ◌≡◌, refl, arith, Bool, false, List, [], ◌∷◌, any, none, some,
}
use slps_team.Prelude.Strings.{equals}
use slps_team.Errors.{Sentinel, sentinel}
use slps_team.Flow.{ok, err}
use slps_team.Sql.{Db, sql_steps}
use slps_team.Auth.{User}
use slps_team.Auth.Users.{Users, insert_user, create_user, commit, get_user_by_email, select_user}

abbrev pub has_email : String → User → Bool
has_email email u = equals u.email email

module _ (email password : String) where
  module _ (db : Db Users) (answers : (n : ℕ) → db.env.fails n ≡ false) where
    pub create_user_calm :
        (t : Users)
        → insert_user email password db.tables ≡ some (db.tables.next_id, t)
        → create_user email password db ≡ (
          ok db.tables.next_id,
          record db { tables = t; statements = suc (suc (suc db.statements)) },
        )
    unfolding create_user
    create_user_calm t inserts = simp (
      answers db.statements,
      answers (suc db.statements),
      answers (suc (suc db.statements)),
      inserts,
      commit,
      sql_steps,
    )

module _ (email : String) where
  pub select_absent :
      (rows : List User)
      → any (has_email email) rows ≡ false
      → select_user (has_email email) rows ≡ none
  select_absent [] h = refl
  select_absent (u ∷ us) h = ground (arith, select_absent us)

  module _ (db : Db Users) (answers : (n : ℕ) → db.env.fails n ≡ false) where
    pub absent_calm :
        select_user (has_email email) db.tables.rows ≡ none
        → get_user_by_email email db
          ≡ (err (sentinel Sentinel.not_found), record db { statements = suc db.statements })
    unfolding get_user_by_email
    absent_calm missing = simp (answers db.statements, missing, sql_steps)

    pub present_calm :
        (u : User)
        → select_user (has_email email) db.tables.rows ≡ some u
        → get_user_by_email email db
          ≡ (ok (record u { role = "" }), record db { statements = suc db.statements })
    unfolding get_user_by_email
    present_calm u found = simp (answers db.statements, found, sql_steps)
