-- ===== src/Auth/Login.antt =====
-- What a login and a check of the role rest on, whatever fails.
use slps_team.Prelude.{
  ℕ, String, ◌≡◌, ◌≢◌, ap, subst, sym, ◌∙◌, arith, Bool, true, false, ◌==◌, List, [], ◌∷◌, not,
  Option, none, some, Bool-cases, Option-cases, inl, inr, ◌⊎◌, if◌then◌else◌,
}
use slps_team.Prelude.Strings.{equals, equals_sound}
use slps_team.Errors.{Sentinel, sentinel}
use slps_team.Flow.{ok, err, handled, continue_ok, handled_ok, return_if_then, same_ok}
use slps_team.Sql.{Db, driver_error, sql_steps}
use slps_team.Auth.{User}
use slps_team.Auth.Users.{Users, select_user, get_user_by_email, get_user_by_id, is_user_admin}
use slps_team.Auth.UserTable.{has_email}
use slps_team.Auth.Sessions.{Redis, Codec}
use slps_team.Auth.Service.{World, Partners, on_users, not_found_or_db, login}

-- A row of the table.
abbrev pub Row : User → List User → Type 0
Row u [] = ⊥
Row u (v ∷ vs) = (u ≡ v) ⊎ Row u vs

select-Row :
    (test : User → Bool) (rows : List User) (u : User)
    → select_user test rows ≡ some u
    → Row u rows × (test u ≡ true)
select-Row test [] u e = absurd (cc)
select-Row test (v ∷ vs) u e = elim (Bool-cases (test v)) [
  | inl hit ↦ let same : v ≡ u = ground arith in (inl (sym same), ap test (sym same) ∙ hit)
  | inr miss ↦
      let rest : select_user test vs ≡ some u = ground arith in
      let (row, hit) = select-Row test vs u rest in (inr row, hit)
]

-- What the lookup by email, and the one by id, answer.
module _ (db : Db Users) where
  found_by_id :
      (id : ℕ) (u : User) → (get_user_by_id id db).0 ≡ ok u → Row u db.tables.rows × (u.id ≡ id)
  unfolding get_user_by_id
  found_by_id id u e = elim (Bool-cases (db.env.fails db.statements)) [
    | inl down ↦
        let bad : (get_user_by_id id db).0 ≡ err driver_error = simp (down, sql_steps) in
        absurd (cc)
    | inr up ↦ elim (Option-cases (select_user (λ v. v.id == id) db.tables.rows)) [
      | inl missing ↦
          let bad : (get_user_by_id id db).0 ≡ err (sentinel Sentinel.not_found) =
            simp (up, missing, sql_steps) in
          absurd (cc)
      | inr (v, hit) ↦
          let good : (get_user_by_id id db).0 ≡ ok v = simp (up, hit, sql_steps) in
          let same : v ≡ u = same_ok v u (sym good ∙ e) in
          let (row, test) = select-Row (λ v. v.id == id) db.tables.rows v hit in
          subst (λ (x : User). Row x db.tables.rows × (x.id ≡ id)) same (row, ground arith)
    ]
  ]

  found_by_email :
      (email : String) (u : User)
      → (get_user_by_email email db).0 ≡ ok u
      → (v : User) × Row v db.tables.rows × (v.email ≡ email) × (u ≡ record v { role = "" })
  unfolding get_user_by_email
  found_by_email email u e = elim (Bool-cases (db.env.fails db.statements)) [
    | inl down ↦
        let bad : (get_user_by_email email db).0 ≡ err driver_error = simp (down, sql_steps) in
        absurd (cc)
    | inr up ↦ elim (Option-cases (select_user (has_email email) db.tables.rows)) [
      | inl missing ↦
          let bad : (get_user_by_email email db).0 ≡ err (sentinel Sentinel.not_found) =
            simp (up, missing, sql_steps) in
          absurd (cc)
      | inr (v, hit) ↦
          let good : (get_user_by_email email db).0 ≡ ok (record v { role = "" }) =
            simp (up, hit, sql_steps) in
          let (row, test) = select-Row (has_email email) db.tables.rows v hit in
          (
            v,
            row,
            equals_sound v.email email test,
            same_ok u (record v { role = "" }) (sym e ∙ good),
          )
    ]
  ]

admin_test :
    (role : String)
    → (if equals role "admin" then true else false) ≡ true
    → equals role "admin" ≡ true
admin_test role e = ground arith

no_admin : false ≢ true
no_admin e = ground arith

-- Whatever fails: the admin check answers yes only for a user whose row has the role "admin".
is_user_admin-Row :
    (user : Option ℕ) (db : Db Users)
    → (is_user_admin user db).0 ≡ ok true
    → (u : User) × Row u db.tables.rows × (user ≡ some u.id) × (u.role ≡ "admin")
unfolding is_user_admin
is_user_admin-Row none db e = absurd (no_admin (same_ok false true e))
is_user_admin-Row (some id) db e =
    let (u, found, role) = continue_ok _ (get_user_by_id id db) true e in
    let (row, same) = found_by_id db id u found in
    (
      u,
      row,
      ap some (sym same),
      equals_sound u.role "admin" (admin_test u.role (same_ok _ true role)),
    )

module _ (redis : Redis) (codec : Codec redis.Data) (p : Partners) where
  -- Whatever fails: a login gives the id of a user whose row has the email of the request and a
  -- password hash that bcrypt finds to match the password of the request.
  login-Row :
      (email password : String) (w : World redis codec) (id : ℕ)
      → (login redis codec p email password w).0 ≡ ok id
      → (u : User) × Row u w.users.tables.rows
        × (u.email ≡ email)
        × (p.compare_hash_and_password u.password password ≡ true)
        × (id ≡ u.id)
  unfolding login on_users
  login-Row email password w id e =
      let x = handled not_found_or_db (on_users (get_user_by_email email) w) in
      let (u, looked, rest) = continue_ok _ x id e in
      let found = handled_ok not_found_or_db (on_users (get_user_by_email email) w) u looked in
      let (v, row, same, copy) = found_by_email w.users email u found in
      let (refusal, last) =
        return_if_then (not (p.compare_hash_and_password u.password password))
          Sentinel.invalid_input u.id id x.1 rest in
      let matches : p.compare_hash_and_password u.password password ≡ true = ground arith in
      (
        v,
        row,
        same,
        ap (λ (y : User). p.compare_hash_and_password y.password password) (sym copy) ∙ matches,
        sym last ∙ ap (λ (y : User). y.id) copy,
      )
