-- ===== src/Auth/Accounts.antt =====
-- Registration and login, one after the other.
use slps_team.Prelude.{ℕ, suc, ◌≤◌, String, ◌≡◌, refl, ap, arith, true, false, ◌∷◌, any, leb, some}
use slps_team.Prelude.Strings.{equals_complete}
use Prim.Native.String.{◌++◌, count}
use slps_team.Errors.{Sentinel, sentinel}
use slps_team.Flow.{Result, ok, err, Action, pure, lift, or_return, ◌>>◌, flow_steps}
use slps_team.Sql.{Db}
use slps_team.Auth.{User, RegisterRequest}
use slps_team.Auth.Users.{Users, admits, insert_user, create_user, get_user_by_email}
use slps_team.Auth.UserTable.{has_email, create_user_calm, select_absent, absent_calm, present_calm}
use slps_team.Auth.Sessions.{Redis, Codec}
use slps_team.Auth.Service.{World, Partners, on_users, profile_of, login, register}

module _ {redis : Redis} {codec : Codec redis.Data} {A : Type 0} where
  on_users_run :
      (m : Action (Db Users) A) (w : World redis codec) (x : Result A × Db Users)
      → m w.users ≡ x
      → on_users m w ≡ (x.0, record w { users = x.1 })
  unfolding on_users
  on_users_run m w x e = ap (λ (y : Result A × Db Users). (y.0, record w { users = y.1 })) e

-- What the last two calls of `Register` make of the new user.
abbrev pub settled : ℕ → Result (Unit {0}) → Result (Unit {0}) → Result ℕ
settled id (ok _) (ok _) = ok id
settled id _ _ = err (sentinel Sentinel.db)

-- A request that passes the checks, for an email that no user has.
pub record IsAcceptable (p : Partners) (req : RegisterRequest) (t : Users) : Type 0 where
  pub valid : p.validate_struct req ≡ true
  pub free : any (has_email req.email) t.rows ≡ false
  pub confirmed : req.password ≡ req.confirm_password
  pub short : count req.email ≤ 254
  pub hash : String
  pub hashed : p.generate_from_password req.password ≡ ok hash

module _ (redis : Redis) (codec : Codec redis.Data) (p : Partners) (req : RegisterRequest)
    (w : World redis codec) (answers : (n : ℕ) → w.users.env.fails n ≡ false)
    (fit : IsAcceptable p req w.users.tables) where
  abbrev id : ℕ
  id = w.users.tables.next_id

  abbrev new_user : User
  new_user = record { id = id; email = req.email; password = fit.hash; role = "member" }

  abbrev grown : Users
  grown = record { rows = new_user ∷ w.users.tables.rows; next_id = suc id }

  inserts : insert_user req.email fit.hash w.users.tables ≡ some (id, grown)
  unfolding insert_user admits
  inserts =
      let long : leb 8 (count fit.hash) ≡ true =
        rw (p.generate_length req.password fit.hash fit.hashed) refl in
      let fits : leb (count req.email) 254 ≡ true = ground (arith, fit.short) in
      simp (fit.free, long, fits)

  -- The world after `Register`, whatever the last two calls answer.
  abbrev after : World redis codec
  after = record w {
    users = record (w.users) {
      tables = grown;
      statements = suc (suc (suc (suc w.users.statements)));
    };
  }

  looked_up : World redis codec
  looked_up = record w { users = record (w.users) { statements = suc w.users.statements } }

  settles :
      (x y : Result (Unit {0})) (w' : World redis codec)
      → (do or_return Sentinel.db (lift x); or_return Sentinel.db (lift y); pure id) w'
        ≡ (settled id x y, w')
  settles (ok _) (ok _) w' = refl
  settles (ok _) (err e) w' = refl
  settles (err e) y w' = refl

  absent :
      on_users {redis = redis} {codec = codec} (get_user_by_email req.email) w
      ≡ (err (sentinel Sentinel.not_found), looked_up)
  unfolding looked_up
  absent =
      on_users_run (get_user_by_email req.email) w _ (
        absent_calm req.email w.users answers
          (select_absent req.email w.users.tables.rows fit.free))

  created :
      on_users {redis = redis} {codec = codec} (create_user req.email fit.hash) looked_up
      ≡ (ok id, after)
  unfolding looked_up
  created =
      on_users_run (create_user req.email fit.hash) looked_up _
        (create_user_calm req.email fit.hash looked_up.users answers grown inserts)

  register_run : register redis codec p req w ≡ (
    settled id
        (p.create_profile (profile_of redis codec p req id))
        (p.index_profile (req.first_name ++ " " ++ req.last_name) id),
    after,
  )
  unfolding register
  register_run =
      simp
        (
          fit.valid,
          absent,
          equals_complete req.password req.confirm_password fit.confirmed,
          fit.hashed,
          created,
          flow_steps,
        )
        (settles (p.create_profile (profile_of redis codec p req id))
          (p.index_profile (req.first_name ++ " " ++ req.last_name) id) after)

  found_again : World redis codec
  found_again = record after {
    users = record (after.users) { statements = suc after.users.statements };
  }

  present :
      on_users {redis = redis} {codec = codec} (get_user_by_email req.email) after
      ≡ (ok (record new_user { role = "" }), found_again)
  unfolding found_again
  present = on_users_run (get_user_by_email req.email) after _ (
      present_calm req.email after.users answers new_user
        (simp (equals_complete req.email req.email refl)))

  login-after : (login redis codec p req.email req.password after).0 ≡ ok id
  unfolding login
  login-after = simp (present, p.compare-generate req.password fit.hash fit.hashed, flow_steps)

  register-after : (register redis codec p req after).0 ≡ err (sentinel Sentinel.already_exists)
  unfolding register
  register-after = simp (fit.valid, present, flow_steps)

  -- While the database answers, of a request that passes the checks, whose email is free and not
  -- too long, and whose password bcrypt can hash: `Register` answers the new user's id if the
  -- profile service and the search index both accept the user, and a database error if not; in
  -- either case the user is in the table, so that a login with the email and the password gives
  -- that id, and registering again is refused as already existing.
  pub register-login :
      let (r, w') = register redis codec p req w in
      (r
        ≡ settled id
            (p.create_profile (profile_of redis codec p req id))
            (p.index_profile (req.first_name ++ " " ++ req.last_name) id))
      × ((login redis codec p req.email req.password w').0 ≡ ok id)
      × ((register redis codec p req w').0 ≡ err (sentinel Sentinel.already_exists))
  register-login = rw register_run (refl, login-after, register-after)
