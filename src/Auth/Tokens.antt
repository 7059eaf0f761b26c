-- ===== src/Auth/Tokens.antt =====
-- internal/server/auth.go: how a token comes to be stored, at start-up from the environment and by
-- the route `/api/create-token`. An answer is a pair of scope and token or a status of HTTP.
use discord_free_cloud.Base.{
  ◌≡◌, ◌≢◌, ◌⊎◌, refl, sym, ap, ◌∙◌, ℕ, [], Bool, true, false, ◌&&◌, ◌||◌, not, Option, some, none,
  Result, ok, err, if◌then◌else◌, arith, Text, codes, bytes_eq, bytes_eq_iff, lookup, insert,
  lookup-insert, to_lower, trim_space, Bool-cases, inl, inr,
}
use discord_free_cloud.Db.{Store, DbError}
use discord_free_cloud.Db.Settings.{
  setting_or_empty, set_setting, stored, setting_or_empty-online, set_setting-online,
}
use discord_free_cloud.Auth.{
  TokenScope, Env, Request, Server, settings_key_write_token, settings_key_read_token, is_write,
  token_from_request, auth_enabled, hash_token, classify, session_valid, session_token_of,
  found_session, check_session, hash_session_id,
}
use discord_free_cloud.Auth.Gate.{classify-online}

-- `signinPasswordMatches` with the value of SIGNIN_PASSWORD
unfoldable pub signin_password_matches : Text → Text → Bool
unfolding trim_space
signin_password_matches variable supplied =
    let want = trim_space variable in
    if bytes_eq want [] || bytes_eq supplied [] then false else bytes_eq supplied want

-- `scopeAllowsWrite` on the scope that `requireAuth` put into the context, if it did
unfoldable pub scope_allows_write : Option TokenScope → Bool
scope_allows_write none = true
scope_allows_write (some scope) = is_write scope

-- the scope that the body of a request asks for
pub asked_scope : Text → Text
unfolding to_lower trim_space
asked_scope body =
    let scope = to_lower (trim_space body) in if bytes_eq scope [] then codes "write" else scope

pub key_of : Text → Text
key_of scope =
    if bytes_eq scope (codes "read") then settings_key_read_token else settings_key_write_token

-- a request on the loopback interface that did not come through the tunnel
unfoldable pub is_direct : Request → Bool
is_direct r = elim r.remote_host [
  | none ↦ false
  | some host ↦
      (bytes_eq host (codes "127.0.0.1") || bytes_eq host (codes "::1"))
      && bytes_eq r.cf_connecting_ip []
]

-- why a request is refused before a token is made
pub refusal : Bool → Bool → Text → Option ℕ
refusal true direct existing = none
refusal false direct existing =
    if not direct then some 401 else if not (bytes_eq existing []) then some 403 else none

module _ (sha256_hex : Text → Text) where
  -- The store behind `_ = s.db.SetSetting(key, hashToken(v))` if the variable has a value, and whether
  -- it has one.
  seed : Text → Text → Store → Bool × Store
  seed key variable s =
      let v = trim_space variable in
      if bytes_eq v [] then (false, s) else (true, (set_setting key (hash_token sha256_hex v) s).1)

  pub ensure_seeded_tokens : Env → Store → Bool × Store
  unfolding seed
  ensure_seeded_tokens env s =
      let enabled = auth_enabled s in
      if enabled.0
      then (true, enabled.1)
      else (let w = seed settings_key_write_token env.api_token_write enabled.1 in
          let r = seed settings_key_read_token env.api_token_read w.1 in
          if w.0 || r.0 then (true, r.1) else auth_enabled r.1)

  unfoldable pub token_or_session : Request → Server → Bool × Server
  token_or_session r srv =
      let scope = classify sha256_hex (token_from_request r) srv.store in
      let srv1 = record srv { store = scope.1 } in
      if is_write scope.0 then (true, srv1) else session_valid sha256_hex r srv1

  after_store :
      Text → Text → Server → Result DbError (Unit {0}) × Store → Result ℕ (Text × Text) × Server
  after_store scope token srv (ok _, s) = (ok (scope, token), record srv { store = s })
  after_store scope token srv (err _, s) = (err 500, record srv { store = s })

  -- the end of the handler, with the token that `generateToken` gives
  store_token : Text → Option Text → Server → Result ℕ (Text × Text) × Server
  unfolding after_store
  store_token scope none srv = (err 500, srv)
  store_token scope (some token) srv =
      after_store scope token srv
        (set_setting (key_of scope) (hash_token sha256_hex token) srv.store)

  unless_refused : Option ℕ → Text → Option Text → Server → Result ℕ (Text × Text) × Server
  unfolding store_token
  unless_refused (some status) scope generated srv = (err status, srv)
  unless_refused none scope generated srv = store_token scope generated srv

  -- `handleCreateToken` on the method (whether it is POST), the scope in the body, the token that the
  -- generator gives and the request
  pub handle_create_token :
      Bool → Text → Option Text → Request → Server → Result ℕ (Text × Text) × Server
  unfolding unless_refused
  handle_create_token post body generated r srv =
      let scope = asked_scope body in
      if not post
      then (err 405, srv)
      else if not (bytes_eq scope (codes "read")) && not (bytes_eq scope (codes "write"))
      then (err 400, srv)
      else (let existing = setting_or_empty (key_of scope) srv.store in
          let allowed = token_or_session r (record srv { store = existing.1 }) in
          unless_refused (refusal allowed.0 (is_direct r) existing.0) scope generated allowed.1)

  found_session-store :
      (id : Text) (o : Option ℕ) (srv : Server) → (found_session id o srv).1.store ≡ srv.store
  unfolding found_session
  found_session-store id none srv = refl
  found_session-store id (some exp) srv = ground arith

  session_valid-store :
      (r : Request) (srv : Server) → (session_valid sha256_hex r srv).1.store ≡ srv.store
  unfolding session_valid check_session
  session_valid-store r srv =
      let id : Text = hash_session_id sha256_hex (session_token_of r) in
      ground (arith, found_session-store id (lookup id srv.sessions) srv)

  -- Looking at the credentials of a request leaves a catalog that answers as it is.
  token_or_session-store :
      (r : Request) (srv : Server)
      → srv.store.faults ≡ []
      → (token_or_session r srv).1.store ≡ srv.store
  unfolding token_or_session
  token_or_session-store r srv e =
      rw (classify-online sha256_hex (token_from_request r) srv.store e)
        (ground (arith, session_valid-store r srv))

  stored-insert :
      (k key value : Text) (s : Store)
      → bytes_eq key k ≡ false
      → stored k (record s { settings = insert key value s.settings }) ≡ stored k s
  stored-insert k key value s e = rw (lookup-insert key k value s.settings, e) refl

  -- Where a token is stored under another key, or no token at all, the other settings stay.
  store_token-stored :
      (k scope : Text) (generated : Option Text) (srv : Server)
      → srv.store.faults ≡ []
      → bytes_eq (key_of scope) k ≡ false
      → stored k (store_token scope generated srv).1.store ≡ stored k srv.store
  unfolding store_token after_store
  store_token-stored k scope none srv e h = refl
  store_token-stored k scope (some token) srv e h =
      rw (set_setting-online (key_of scope) (hash_token sha256_hex token) srv.store e)
        (stored-insert k (key_of scope) (hash_token sha256_hex token) srv.store h)

  refused-store :
      (status : ℕ) (scope : Text) (generated : Option Text) (srv : Server)
      → (unless_refused (some status) scope generated srv).1 ≡ srv
  unfolding unless_refused
  refused-store status scope generated srv = refl

  -- What a caller without a credential may write: a setting that is empty, if the call is direct.
  unless_refused-stored :
      (k scope : Text) (generated : Option Text) (direct : Bool) (existing : Text) (srv : Server)
      → srv.store.faults ≡ []
      → existing ≡ stored (key_of scope) srv.store
      → ((stored k srv.store ≢ []) ⊎ (direct ≡ false))
      → stored k (unless_refused (refusal false direct existing) scope generated srv).1.store
        ≡ stored k srv.store
  unfolding refusal unless_refused
  unless_refused-stored k scope generated false existing srv e same kept =
      ap (λ (t : Server). stored k t.store) (refused-store 401 scope generated srv)
  unless_refused-stored k scope generated true existing srv e same kept =
      elim (Bool-cases (bytes_eq existing [])) [
        | inl empty ↦
            let other : bytes_eq (key_of scope) k ≡ false =
              ground (arith, kept, same, bytes_eq_iff existing [], bytes_eq_iff (key_of scope) k) in
            rw empty (store_token-stored k scope generated srv e other)
        | inr full ↦
            rw full (ap (λ (t : Server). stored k t.store) (refused-store 403 scope generated srv))
      ]

  -- While the catalog answers, `/api/create-token` without a write token and without a valid session
  -- changes no setting that has a value, and no setting at all for a request that is not made on the
  -- loopback interface or came through the tunnel.
  pub handle_create_token-keeps :
      (post : Bool) (body : Text) (generated : Option Text) (r : Request) (srv : Server) (k : Text)
      → srv.store.faults ≡ []
      → (token_or_session r srv).0 ≡ false
      → ((stored k srv.store ≢ []) ⊎ (is_direct r ≡ false))
      → stored k (handle_create_token post body generated r srv).1.store ≡ stored k srv.store
  unfolding handle_create_token
  handle_create_token-keeps post body generated r srv k e shut kept =
      let scope : Text = asked_scope body in
      let left : (token_or_session r srv).1.store ≡ srv.store = token_or_session-store r srv e in
      let same : stored k
            (unless_refused
              (refusal (token_or_session r srv).0 (is_direct r) (stored (key_of scope) srv.store))
              scope generated (token_or_session r srv).1).1.store
          ≡ stored k srv.store =
        rw shut (
          unless_refused-stored k scope generated (is_direct r) (stored (key_of scope) srv.store)
            (token_or_session r srv).1 (ap (λ (s : Store). s.faults) left ∙ e)
            (sym (ap (stored (key_of scope)) left)) (rw left kept)
          ∙ ap (stored k) left) in
      rw (setting_or_empty-online (key_of scope) srv.store e) (ground (arith, same))
