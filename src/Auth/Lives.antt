-- ===== src/Auth/Lives.antt =====
-- The life of a session, from the login to the logout, as the middleware sees it.
use slps_team.Prelude.{
  ℕ, suc, String, ◌≡◌, ◌≢◌, refl, sym, ap, ◌∙◌, arith, Bool, true, false, Option, none, some,
  Bool-cases, inl, inr,
}
use slps_team.Prelude.Strings.{equals, equals_complete}
use slps_team.Errors.{Sentinel, to_grpc_error, from_grpc_error}
use slps_team.Errors.Channel.{channel_not_found}
use slps_team.Errors.Status.{GrpcStatus}
use slps_team.Flow.{Result, ok, err, pure, continue, handled, flow_steps}
use slps_team.Sql.{wrapping}
use slps_team.Grpc.{reply_of, result_of_reply}
use slps_team.Auth.{Session, SidAndCsrfToken}
use slps_team.Auth.Sessions
use slps_team.Auth.Sessions.{
  Redis, Codec, State, session_key, session_ttl, generate_random_token, delete_session,
}
use slps_team.Auth.Service.{World, add_session, logout}
use slps_team.Auth.Gate.{
  Request, served, refused, one_of, is_open, forbidden_paths_with_auth, passage_of, auth_middleware,
  request_session, serve_is_logged_in,
}
use slps_team.Auth.Access.{key_differs, read_reply, is_logged_in-read}

-- Redis answers each command, tokens can be drawn and sessions encoded.
pub record IsUp (redis : Redis) (codec : Codec redis.Data) : Type 0 where
  pub set_ok :
      (k : String) (d : redis.Data) (ttl : ℕ) (s : redis.Store) → (redis.set k d ttl s).0 ≡ ok "OK"
  pub get_ok : (k : String) (s : redis.Store) → redis.get k s ≡ ok (redis.holds s k)
  pub del_ok : (k : String) (s : redis.Store) → (n : ℕ) × ((redis.del k s).0 ≡ ok n)
  pub draws : (n : ℕ) → (t : String) × (codec.token n ≡ ok t)
  pub encodes : (s : Session) → (d : redis.Data) × (codec.marshal s ≡ ok d)

-- A request of this method and path, with the cookie and the header.
abbrev pub request : String → String → String → String → Request
request method path cookie csrf = record {
  method = method;
  path = path;
  session_id = some cookie;
  csrf_header = csrf;
}

module _ (g : GrpcStatus) (redis : Redis) (codec : Codec redis.Data) (up : IsUp redis codec) where
  abbrev through : Result Session → Result Session
  through (ok session) = ok session
  through (err e) = err (from_grpc_error g (to_grpc_error g e))

  through-reply :
      (x : Result Session) (w : World redis codec)
      → (result_of_reply g (reply_of g (x, w))).0 ≡ through x
  through-reply (ok session) w = refl
  through-reply (err e) w = refl

  -- What a request gets depends on what the store holds for its cookie.
  gate_reads :
      (debug : Bool) (r : Request) (w : World redis codec) (cookie : String) (o : Option redis.Data)
      → r.session_id ≡ some cookie
      → equals r.method "OPTIONS" ≡ false
      → redis.holds w.sessions.store (session_key cookie) ≡ o
      → (auth_middleware g redis codec debug r w).0
        ≡ passage_of debug r (through (read_reply g redis codec (ok o)))
  unfolding auth_middleware request_session serve_is_logged_in
  gate_reads debug r w cookie o brings other held =
      simp
        (
          brings,
          other,
          is_logged_in-read g redis codec cookie w,
          up.get_ok (session_key cookie) w.sessions.store,
          held,
        )
        (ap (passage_of debug r) (through-reply (read_reply g redis codec (ok o)) w))

  asks_options :
      (debug : Bool) (r : Request) (w : World redis codec)
      → equals r.method "OPTIONS" ≡ true
      → (auth_middleware g redis codec debug r w).0 ≡ served none
  unfolding auth_middleware
  asks_options debug r w options = simp (options)

  module _ (u : ℕ) (st : State redis codec) (id csrf : String) (d : redis.Data) where
    abbrev added : State redis codec
    added = record {
      store = (redis.set (session_key id) d session_ttl st.store).1;
      drawn = suc (suc st.drawn);
    }

    add_session_up :
        codec.token st.drawn ≡ ok id
        → codec.token (suc st.drawn) ≡ ok csrf
        → codec.marshal (record { user_id = u; csrf_token = csrf }) ≡ ok d
        → slps_team.Auth.Sessions.add_session redis codec u st
          ≡ (ok (record { sid = id; csrf_token = csrf }), added)
    unfolding slps_team.Auth.Sessions.add_session generate_random_token equals session_key
    add_session_up first second encoded = simp (
      first,
      second,
      encoded,
      up.set_ok (session_key id) d session_ttl st.store,
      flow_steps,
      wrapping,
    )

  module _ (u : ℕ) (w : World redis codec) (id csrf : String) (d : redis.Data) where
    abbrev logged : World redis codec
    logged = record w { sessions = added u w.sessions id csrf d }

    logged_holds : redis.holds logged.sessions.store (session_key id) ≡ some d
    logged_holds =
        redis.set_holds (session_key id) d session_ttl w.sessions.store
          (up.set_ok (session_key id) d session_ttl w.sessions.store)

    passes :
        (debug : Bool) (method path : String)
        → codec.unmarshal d ≡ ok (record { user_id = u; csrf_token = csrf })
        → equals method "OPTIONS" ≡ false
        → one_of forbidden_paths_with_auth path ≡ false
        → (auth_middleware g redis codec debug (request method path id csrf) logged).0
          ≡ served (some u)
    passes debug method path decoded other free =
        gate_reads debug (request method path id csrf) logged id (some d) refl other logged_holds
        ∙ simp (decoded, free, equals_complete csrf csrf refl) (ground arith)

  -- While Redis answers, tokens can be drawn and sessions encoded: `AddSession` succeeds, and in
  -- the state that it leaves a request that brings the new cookie and the new CSRF token acts as
  -- that user, whatever its method but OPTIONS and its path but the login and the registration.
  add_session-middleware :
      (u : ℕ) (w : World redis codec)
      → (tokens : SidAndCsrfToken) × ((add_session redis codec u w).0 ≡ ok tokens)
        × ((debug : Bool) (method path : String)
            → equals method "OPTIONS" ≡ false
            → one_of forbidden_paths_with_auth path ≡ false
            → (auth_middleware g redis codec debug
                (request method path tokens.sid tokens.csrf_token)
                (add_session redis codec u w).1).0
              ≡ served (some u))
  unfolding add_session
  add_session-middleware u w =
      let n = w.sessions.drawn in
      let (id, first) = up.draws n in
      let (csrf, second) = up.draws (suc n) in
      let (d, encoded) = up.encodes (record { user_id = u; csrf_token = csrf }) in
      let run = add_session_up u w.sessions id csrf d first second encoded in
      let whole : add_session redis codec u w
          ≡ (ok (record { sid = id; csrf_token = csrf }), logged u w id csrf d) =
        ap
          (λ (x : Result SidAndCsrfToken × State redis codec).
            handled (λ _. Sentinel.db) (x.0, record w { sessions = x.1 }))
          run in
      (
        record { sid = id; csrf_token = csrf },
        ap (λ (x : Result SidAndCsrfToken × World redis codec). x.0) whole,
        λ debug method path other free.
            ap
              (λ (x : Result SidAndCsrfToken × World redis codec).
                (auth_middleware g redis codec debug (request method path id csrf) x.1).0)
              whole
            ∙ passes u w id csrf d debug method path (codec.unmarshal-marshal _ d encoded) other
                free,
      )

  module _ (cookie : String) (w : World redis codec) where
    delete_session_up :
        (st : State redis codec)
        → delete_session redis codec cookie st
          ≡ (ok tt, record st { store = (redis.del (session_key cookie) st.store).1 })
    unfolding delete_session
    delete_session_up st =
        ap
          (λ (x : Result ℕ).
            continue {S = State redis codec} (λ _. pure tt)
              (x, record st { store = (redis.del (session_key cookie) st.store).1 }))
          (up.del_ok (session_key cookie) st.store).1

    abbrev after_logout : World redis codec
    after_logout = record w {
      sessions = record (w.sessions) {
        store = (redis.del (session_key cookie) w.sessions.store).1;
      };
    }

    logout_up : logout redis codec cookie w ≡ (ok tt, after_logout)
    unfolding logout
    logout_up =
        ap
          (λ (x : Result (Unit {0}) × State redis codec).
            handled (λ _. Sentinel.db) (x.0, record w { sessions = x.1 }))
          (delete_session_up w.sessions)

  -- While Redis answers: `Logout` succeeds, and in the state that it leaves a request with that
  -- cookie is refused with 403, but for the method OPTIONS and the open paths.
  pub logout-middleware :
      (cookie : String) (w : World redis codec)
      → ((logout redis codec cookie w).0 ≡ ok tt)
        × ((debug : Bool) (method path csrf : String)
            → equals method "OPTIONS" ≡ false
            → is_open path ≡ false
            → (auth_middleware g redis codec debug
                (request method path cookie csrf)
                (logout redis codec cookie w).1).0
              ≡ refused 403)
  logout-middleware cookie w = (
    ap (λ (x : Result (Unit {0}) × World redis codec). x.0) (logout_up cookie w),
    λ debug method path csrf other closed.
        ap
          (λ (x : Result (Unit {0}) × World redis codec).
            (auth_middleware g redis codec debug (request method path cookie csrf) x.1).0)
          (logout_up cookie w)
        ∙ gate_reads debug (request method path cookie csrf) (after_logout cookie w) cookie none
            refl other
            (redis.del_removes (session_key cookie) w.sessions.store _
              (up.del_ok (session_key cookie) w.sessions.store).1)
        ∙ simp (channel_not_found g, closed),
  )

  -- While Redis answers: a logout changes nothing for a request with another cookie, which the
  -- middleware answers after it as before.
  logout_other-middleware :
      (cookie : String) (w : World redis codec) (debug : Bool) (r : Request) (cookie' : String)
      → r.session_id ≡ some cookie'
      → cookie' ≢ cookie
      → (auth_middleware g redis codec debug r (logout redis codec cookie w).1).0
        ≡ (auth_middleware g redis codec debug r w).0
  logout_other-middleware cookie w debug r cookie' brings other =
      elim (Bool-cases (equals r.method "OPTIONS")) [
        | inl options ↦ asks_options debug r _ options ∙ sym (asks_options debug r w options)
        | inr sends ↦
            ap
              (λ (x : Result (Unit {0}) × World redis codec).
                (auth_middleware g redis codec debug r x.1).0)
              (logout_up cookie w)
            ∙ gate_reads debug r (after_logout cookie w) cookie'
                (redis.holds w.sessions.store (session_key cookie')) brings sends
                (redis.del_other (session_key cookie) w.sessions.store (session_key cookie')
                  (key_differs cookie' cookie other))
            ∙ sym (gate_reads debug r w cookie' _ brings sends refl)
      ]
