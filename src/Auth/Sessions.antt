-- ===== src/Auth/Sessions.antt =====
-- `RedisSessionStore` of internal/repository/dbRedis/sesssionRedis.go. Redis, the JSON package and
-- the random source are parameters, with what their documentation promises.
use slps_team.Prelude.{ℕ, suc, String, ◌≡◌, ◌≢◌, Bool, true, false, Option, none, some}
use slps_team.Prelude.Strings.{equals}
use Prim.Native.String.{◌++◌}
use slps_team.Errors.{Sentinel, foreign}
use slps_team.Flow.{Result, ok, Action, pure, raise, fail, lift, ◌>>=◌}
use slps_team.Sql.{wrapping}
use slps_team.Auth.{Session, SidAndCsrfToken}

-- A Redis server through redigo: `holds` is what a key holds now. A command may fail; `get` gives
-- `none` where redigo gives `ErrNil`.
pub record Redis : Type 1 where
  pub Store : Type 0
  pub Data : Type 0
  pub holds : Store → String → Option Data
  pub set : String → Data → ℕ → Store → Result String × Store
  pub get : String → Store → Result (Option Data)
  pub del : String → Store → Result ℕ × Store
  pub set_holds :
      (k : String) (d : Data) (ttl : ℕ) (s : Store)
      → (set k d ttl s).0 ≡ ok "OK"
      → holds (set k d ttl s).1 k ≡ some d
  pub set_other :
      (k : String) (d : Data) (ttl : ℕ) (s : Store) (k' : String)
      → k' ≢ k
      → holds (set k d ttl s).1 k' ≡ holds s k'
  pub get_reads : (k : String) (s : Store) (o : Option Data) → get k s ≡ ok o → o ≡ holds s k
  pub del_removes :
      (k : String) (s : Store) (n : ℕ) → (del k s).0 ≡ ok n → holds (del k s).1 k ≡ none
  pub del_other :
      (k : String) (s : Store) (k' : String) → k' ≢ k → holds (del k s).1 k' ≡ holds s k'

-- `json.Marshal` and `json.Unmarshal` of a session, and `rand.Reader` with `hex.EncodeToString`:
-- the n-th token that is drawn.
pub record Codec (Data : Type 0) : Type 0 where
  pub marshal : Session → Result Data
  pub unmarshal : Data → Result Session
  pub token : ℕ → Result String
  pub unmarshal-marshal : (s : Session) (d : Data) → marshal s ≡ ok d → unmarshal d ≡ ok s

abbrev pub session_ttl : ℕ
session_ttl = 86400

unfoldable pub session_key : String → String
session_key sid = "sessions:" ++ sid

module _ (redis : Redis) (codec : Codec redis.Data) where
  -- The server, and how many tokens have been drawn.
  pub record State : Type 0 where
    pub store : redis.Store
    pub drawn : ℕ

  abbrev pub Method : Type 0 → Type 0
  Method A = Action State A

  unfoldable pub generate_random_token : Method String
  generate_random_token st =
      wrapping "failed to read random bytes"
        (codec.token st.drawn, record st { drawn = suc st.drawn })

  abbrev pub do_set : String → redis.Data → Method String
  do_set key d st =
      let (reply, store) = redis.set key d session_ttl st.store in
      (reply, record st { store = store })

  -- `if result != "OK" { return nil, fmt.Errorf("result not OK") }`
  abbrev pub tokens_if : Bool → SidAndCsrfToken → Method SidAndCsrfToken
  tokens_if true tokens = pure tokens
  tokens_if false tokens = raise (foreign "result not OK")

  unfoldable pub add_session : ℕ → Method SidAndCsrfToken
  add_session user_id = do
    id ← generate_random_token
    csrf_token ← generate_random_token
    d ← lift (codec.marshal (record { user_id = user_id; csrf_token = csrf_token }))
    result ← do_set (session_key id) d
    tokens_if (equals result "OK") (record { sid = id; csrf_token = csrf_token })

  abbrev pub session_of : Option redis.Data → Method Session
  session_of none = fail Sentinel.not_found
  session_of (some d) = lift (codec.unmarshal d)

  unfoldable pub get_session_by_session_id : String → Method Session
  get_session_by_session_id sid = do
    reply ← (λ st. (redis.get (session_key sid) st.store, st))
    session_of reply

  unfoldable pub delete_session : String → Method (Unit {0})
  delete_session sid = do
    _ ← (λ st.
        let (reply, store) = redis.del (session_key sid) st.store in
        (reply, record st { store = store }))
    pure tt
