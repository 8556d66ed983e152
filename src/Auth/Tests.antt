-- ===== src/Auth/Tests.antt =====
-- Each theorem on sessions at an input that meets its hypotheses.
use slps_team.Prelude.{
  ◌∷◌, zero, suc, ap, sym, ℕ, String, ◌≡◌, ◌≢◌, refl, arith, Bool, true, false, [], Option, none,
  some, if◌then◌else◌,
}
use slps_team.Prelude.Strings.{equals, equals_complete, equals_differ}
use slps_team.Errors.{foreign, Sentinel, sentinel, to_grpc_error, from_grpc_error}
use slps_team.Errors.Status.{Code, GrpcStatus}
use slps_team.Flow.{Result, ok, err, same_ok}
use slps_team.Sql.{Env}
use slps_team.Auth.{User, Session, RegisterRequest}
use slps_team.Auth.Sessions.{Redis, Codec}
use slps_team.Auth.Service.{on_users, World, Partners, login, register, logout}
use slps_team.Auth.Gate.{Request, served, refused, is_open, auth_middleware, request_session}
use slps_team.Auth.Users.{get_user_by_email, get_user_by_id, is_user_admin}
use slps_team.Auth.Accounts.{IsAcceptable, register-login}
use slps_team.Auth.Access.{IsGranted, middleware-IsGranted}
use slps_team.Auth.Lives.{IsUp, request, logout-middleware}

-- A store that is a function of the key.
abbrev write : String → Option Session → (String → Option Session) → String → Option Session
write k o store k' = if equals k' k then o else store k'

write_same :
    (k : String) (o : Option Session) (store : String → Option Session) → write k o store k ≡ o
write_same k o store = simp (equals_complete k k refl)

write_other :
    (k : String) (o : Option Session) (store : String → Option Session) (k' : String)
    → k' ≢ k
    → write k o store k' ≡ store k'
write_other k o store k' other = simp (equals_differ k' k other)

same_reply : {A : Type 0} (x y : A) → ok x ≡ ok y → y ≡ x
same_reply x y h = sym (same_ok x y h)

abbrev memory : Redis
memory = record {
  Store = String → Option Session;
  Data = Session;
  holds = λ store k. store k;
  set = λ k d ttl store. (ok "OK", write k (some d) store);
  get = λ k store. ok (store k);
  del = λ k store. (ok 1, write k none store);
  set_holds = λ k d ttl store h. write_same k (some d) store;
  set_other = λ k d ttl store k' other. write_other k (some d) store k' other;
  get_reads = λ k store o h. same_reply (store k) o h;
  del_removes = λ k store n h. write_same k none store;
  del_other = λ k store k' other. write_other k none store k' other;
}

abbrev token_text : ℕ → String
token_text zero = "first"
token_text (suc n) = "later"

abbrev plain_codec : Codec Session
plain_codec = record {
  marshal = λ s. ok s;
  unmarshal = λ d. ok d;
  token = λ n. ok (token_text n);
  unmarshal-marshal = λ s d h. ap ok (same_reply s d h);
}

memory-IsUp : IsUp memory plain_codec
memory-IsUp = record {
  set_ok = λ k d ttl s. refl;
  get_ok = λ k s. refl;
  del_ok = λ k s. (1, refl);
  draws = λ n. (token_text n, refl);
  encodes = λ s. (s, refl);
}

abbrev code_and_text : GrpcStatus
code_and_text = record {
  RpcError = Code × String;
  error = λ c m. (c, m);
  from_error = λ r. some r;
  from_error-error = λ c m. refl;
}

abbrev calm : Env
calm = record {
  fails = λ _. false;
  result_fails = λ _. false;
  rows_read = λ n. 0;
  pick = λ n. 0;
  time = λ n. n;
}

abbrev no_sessions : World memory plain_codec
no_sessions = record {
  users = record { tables = record { rows = []; next_id = 1 }; statements = 0; env = calm };
  sessions = record { store = λ _. none; drawn = 0 };
}

abbrev login_page : Request
login_page = record {
  method = "POST";
  path = "/api/auth/login";
  session_id = none;
  csrf_header = "";
}

login_page_served :
    (auth_middleware code_and_text memory plain_codec false login_page no_sessions).0 ≡ served none
unfolding auth_middleware equals request_session to_grpc_error from_grpc_error
login_page_served = refl

middleware-IsGranted_example :
    IsGranted code_and_text memory plain_codec false login_page no_sessions none
middleware-IsGranted_example =
    middleware-IsGranted code_and_text memory plain_codec false login_page no_sessions none
      login_page_served

logout-middleware_example :
    ((logout memory plain_codec "first" no_sessions).0 ≡ ok tt)
    × ((debug : Bool) (method path csrf : String)
        → equals method "OPTIONS" ≡ false
        → is_open path ≡ false
        → (auth_middleware code_and_text memory plain_codec debug
            (request method path "first" csrf)
            (logout memory plain_codec "first" no_sessions).1).0
          ≡ refused 403)
logout-middleware_example =
    logout-middleware code_and_text memory plain_codec memory-IsUp "first" no_sessions

abbrev friends_page : Request
friends_page = record {
  method = "GET";
  path = "/api/friends";
  session_id = some "second";
  csrf_header = "";
}

abbrev second_cookie : String
second_cookie = "second"

other_cookie : second_cookie ≢ "first"
unfolding equals
other_cookie h =
    let e : true ≡ equals "second" "first" = sym (equals_complete "second" "first" h) in absurd (cc)

abbrev sample_hash : String
sample_hash = "012345678901234567890123456789012345678901234567890123456789"

abbrev sample_hash_of : Bool → Result String
sample_hash_of true = ok sample_hash
sample_hash_of false = err (foreign "bcrypt")

only_secret : (b : Bool) (h : String) → sample_hash_of b ≡ ok h → (b ≡ true) × (h ≡ sample_hash)
only_secret true h e = (refl, same_reply sample_hash h e)
only_secret false h e = absurd (cc)

-- One password has a hash, and the index refuses the user.
abbrev one_password : Partners
one_password = record {
  validate_struct = λ req. true;
  generate_from_password = λ p. sample_hash_of (equals p "secret");
  compare_hash_and_password = λ h p. equals p "secret";
  create_profile = λ profile. ok tt;
  index_profile = λ name id. err (foreign "elastic");
  compare-generate = λ p h e. (only_secret (equals p "secret") h e).0;
  generate_length = λ p h e. rw (only_secret (equals p "secret") h e).1 refl;
}

abbrev newcomer : RegisterRequest
newcomer = record {
  first_name = "Anna";
  last_name = "Petrova";
  email = "anna@example.ru";
  password = "secret";
  confirm_password = "secret";
  dob = 0;
  gender = "";
}

newcomer-IsAcceptable : IsAcceptable one_password newcomer (record { rows = []; next_id = 1 })
unfolding equals
newcomer-IsAcceptable = record {
  valid = refl;
  free = refl;
  confirmed = refl;
  short = omega arith;
  hash = sample_hash;
  hashed = refl;
}

register-login_example :
    let (r, w') = register memory plain_codec one_password newcomer no_sessions in
    (r ≡ err (sentinel Sentinel.db))
    × ((login memory plain_codec one_password "anna@example.ru" "secret" w').0 ≡ ok 1)
    × ((register memory plain_codec one_password newcomer w').0
        ≡ err (sentinel Sentinel.already_exists))
register-login_example =
    register-login memory plain_codec one_password newcomer no_sessions (λ n. refl)
      newcomer-IsAcceptable

abbrev anna : User
anna = record { id = 1; email = "anna@example.ru"; password = sample_hash; role = "admin" }

abbrev one_user : World memory plain_codec
one_user = record no_sessions {
  users = record (no_sessions.users) { tables = record { rows = anna ∷ []; next_id = 2 } };
}

anna_logs_in : (login memory plain_codec one_password "anna@example.ru" "secret" one_user).0 ≡ ok 1
unfolding login on_users get_user_by_email equals
anna_logs_in = refl

anna_is_admin : (is_user_admin (some 1) one_user.users).0 ≡ ok true
unfolding is_user_admin get_user_by_id equals
anna_is_admin = refl
