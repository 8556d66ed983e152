-- ===== src/Auth/Access.antt =====
-- What the middleware lets through, from the request down to the session store.
use slps_team.Prelude.{
  ℕ, String, ◌≡◌, ◌≢◌, refl, sym, ap, ◌∙◌, ◌⊎◌, inl, inr, arith, Bool, true, false, Option, none,
  some, Bool-cases,
}
use slps_team.Prelude.Strings.{equals, equals_sound}
use text.Mathlib.TextLemmas.{append_cancel_left}
use slps_team.Errors.{Error, Sentinel, sentinel}
use slps_team.Errors.Status.{GrpcStatus}
use slps_team.Flow.{Result, ok, err, continue}
use slps_team.Grpc.{reply_of, result_of_reply}
use slps_team.Auth.{Session}
use slps_team.Auth.Sessions.{
  Redis, Codec, State, session_key, session_of, get_session_by_session_id,
}
use slps_team.Auth.Service.{World, is_logged_in}
use slps_team.Auth.Gate.{
  Request, served, one_of, is_open, forbidden_paths_with_auth, safe_methods, passage_of, pass_user,
  auth_middleware, request_session, serve_is_logged_in, session_by_cookie,
}

pub key_differs : (s t : String) → s ≢ t → session_key s ≢ session_key t
unfolding session_key
key_differs s t h e = h (append_cancel_left "sessions:" s t e)

-- A request may act as a user that is not in the session it brings.
abbrev pub MayAct : Bool → Request → Session → Type 0
MayAct debug r session =
    (one_of forbidden_paths_with_auth r.path ≡ false)
    × ((one_of safe_methods r.method ≡ true)
        ⊎ (debug ≡ true)
        ⊎ (r.csrf_header ≡ session.csrf_token))

pass_user-MayAct :
    (debug : Bool) (r : Request) (session : Session) (who : Option ℕ)
    → pass_user debug r session ≡ served who
    → (who ≡ some session.user_id) × MayAct debug r session
pass_user-MayAct debug r session who e =
    ground (arith, equals_sound r.csrf_header session.csrf_token)

guest-is_open :
    (debug : Bool) (r : Request) (who : Option ℕ) (f : Error)
    → passage_of debug r (err f) ≡ served who
    → (who ≡ none) × ((r.method ≡ "OPTIONS") ⊎ (is_open r.path ≡ true))
guest-is_open debug r who f e = ground arith

module _ (g : GrpcStatus) {S A : Type 0} where
  -- Through gRPC a result comes back as it was, and an error as the channel makes it.
  call-ok : (x : Result A × S) (a : A) → (result_of_reply g (reply_of g x)).0 ≡ ok a → x.0 ≡ ok a
  call-ok (ok a, s) b e = e
  call-ok (err f, s) b e = absurd (cc)

module _ (g : GrpcStatus) (redis : Redis) (codec : Codec redis.Data) where
  -- The session that a cookie names now.
  abbrev pub Names : World redis codec → String → Session → Type 0
  Names w cookie session =
      (d : redis.Data) × (redis.holds w.sessions.store (session_key cookie) ≡ some d)
      × (codec.unmarshal d ≡ ok session)

  abbrev pub read_reply : Result (Option redis.Data) → Result Session
  read_reply (err e) = err e
  read_reply (ok none) = err (sentinel Sentinel.not_found)
  read_reply (ok (some d)) = codec.unmarshal d

  continued :
      (o : Result (Option redis.Data)) (st : State redis codec)
      → continue (session_of redis codec) (o, st) ≡ (read_reply o, st)
  continued (err e) st = refl
  continued (ok none) st = refl
  continued (ok (some d)) st = refl

  pub is_logged_in-read :
      (cookie : String) (w : World redis codec)
      → is_logged_in redis codec cookie w
        ≡ (read_reply (redis.get (session_key cookie) w.sessions.store), w)
  unfolding is_logged_in get_session_by_session_id
  is_logged_in-read cookie w =
      ap (λ (x : Result Session × State redis codec). (x.0, record w { sessions = x.1 }))
        (continued (redis.get (session_key cookie) w.sessions.store) w.sessions)

  stored :
      (w : World redis codec) (cookie : String) (session : Session) (o : Result (Option redis.Data))
      → redis.get (session_key cookie) w.sessions.store ≡ o
      → read_reply o ≡ ok session
      → Names w cookie session
  stored w cookie session (err f) h e = absurd (cc)
  stored w cookie session (ok none) h e = absurd (cc)
  stored w cookie session (ok (some d)) h e =
      (d, sym (redis.get_reads (session_key cookie) w.sessions.store (some d) h), e)

  cookie-Names :
      (o : Option String) (w : World redis codec) (session : Session)
      → (session_by_cookie g redis codec o w).0 ≡ ok session
      → (cookie : String) × (o ≡ some cookie) × Names w cookie session
  unfolding serve_is_logged_in
  cookie-Names none w session e = absurd (cc)
  cookie-Names (some cookie) w session e = (
    cookie,
    refl,
    stored w cookie session _ refl (
        sym (ap (λ (x : Result Session × World redis codec). x.0) (is_logged_in-read cookie w))
        ∙ call-ok g (is_logged_in redis codec cookie w) session e),
  )

  -- A passage to a guest, or one as the user of the session that the cookie names.
  abbrev pub IsGranted : Bool → Request → World redis codec → Option ℕ → Type 0
  IsGranted debug r w who =
      ((who ≡ none) × ((r.method ≡ "OPTIONS") ⊎ (is_open r.path ≡ true)))
      ⊎ ((cookie : String) × (session : Session) × (r.session_id ≡ some cookie)
          × Names w cookie session
          × (who ≡ some session.user_id)
          × MayAct debug r session)

  IsGranted-by_session :
      (debug : Bool) (r : Request) (w : World redis codec) (who : Option ℕ) (x : Result Session)
      → (request_session g redis codec r w).0 ≡ x
      → passage_of debug r x ≡ served who
      → IsGranted debug r w who
  unfolding request_session
  IsGranted-by_session debug r w who (ok session) h e =
      let (cookie, brought, names) = cookie-Names r.session_id w session h in
      let (user, may) = pass_user-MayAct debug r session who e in
      inr (cookie, session, brought, names, user, may)
  IsGranted-by_session debug r w who (err f) h e = inl (guest-is_open debug r who f e)

  -- Whatever fails: a request that the middleware lets through is an OPTIONS request or one for an
  -- open path, and then has no user, or it acts as the user of the session that its cookie names in
  -- the store, is not for the login or the registration, and has a safe method, or the debug mode is
  -- on, or it brings the session's CSRF token.
  pub middleware-IsGranted :
      (debug : Bool) (r : Request) (w : World redis codec) (who : Option ℕ)
      → (auth_middleware g redis codec debug r w).0 ≡ served who
      → IsGranted debug r w who
  unfolding auth_middleware
  middleware-IsGranted debug r w who e = elim (Bool-cases (equals r.method "OPTIONS")) [
    | inl options ↦ inl (ground arith, inl (equals_sound r.method "OPTIONS" options))
    | inr other ↦ IsGranted-by_session debug r w who _ refl (ground arith)
  ]
