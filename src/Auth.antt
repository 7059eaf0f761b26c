-- ===== src/Auth.antt =====
-- internal/server/auth.go: who may call which route. SHA-256 in hex is a parameter, the environment
-- variables are a record. The clock counts nanoseconds.
pub mod Gate
pub mod Sessions
pub mod Tokens
mod Tests
use discord_free_cloud.Base.{
  ℕ, ◌+◌, ◌*◌, List, [], ◌∷◌, ◌++◌, Bool, true, false, ◌&&◌, ◌||◌, not, Option, some, none, Result,
  ok, err, ltb, if◌then◌else◌, drop, Text, codes, bytes_eq, has, lookup, insert, remove, to_lower,
  trim_space, has_prefix,
}
use discord_free_cloud.Db.{Store, DbError}
use discord_free_cloud.Db.Settings.{setting_or_empty, set_setting}

pub data TokenScope : Type 0 where
  scope_none scope_read scope_write : TokenScope

pub data PublicMode : Type 0 where
  public_off public_read public_full : PublicMode

-- the variables of the environment that the server reads
pub record Env : Type 0 where
  pub public_access : Text
  pub api_token_write : Text
  pub api_token_read : Text

-- What the code reads of an HTTP request; a header or a query value that is missing is empty.
-- `remote_host` is `none` where `net.SplitHostPort` fails.
pub record Request : Type 0 where
  pub path : Text
  pub authorization : Text
  pub api_token : Text
  pub session_header : Text
  pub session_query : Text
  pub session_cookie : Option Text
  pub remote_host : Option Text
  pub cf_connecting_ip : Text

pub record Server : Type 0 where
  pub store : Store
  pub sessions : List (Text × ℕ)
  pub clock : ℕ

-- What `requireAuth` does: the handler is called, with the scope in its context if one was found, or
-- the request is refused with status 401 or 403.
pub data Verdict : Type 0 where
  served : Option TokenScope → Verdict
  unauthorized forbidden : Verdict

abbrev pub settings_key_write_token : Text
settings_key_write_token = codes "api_token_write_hash"

abbrev pub settings_key_read_token : Text
settings_key_read_token = codes "api_token_read_hash"

abbrev pub session_lifetime : ℕ
session_lifetime = 12 * 3600 * 1000000000

pub public_mode : Env → PublicMode
unfolding to_lower trim_space has
public_mode env =
    let v = to_lower (trim_space env.public_access) in
    if has v
      (codes "read" ∷ codes "public" ∷ codes "1" ∷ codes "true" ∷ codes "yes" ∷ codes "on" ∷ [])
    then public_read
    else if has v (codes "full" ∷ codes "write" ∷ codes "all" ∷ [])
    then public_full
    else public_off

granted : PublicMode → TokenScope
granted public_read = scope_read
granted public_full = scope_write
granted public_off = scope_none

pub anonymous_scope : Env → TokenScope
unfolding granted public_mode
anonymous_scope env = granted (public_mode env)

pub is_none : TokenScope → Bool
is_none scope_none = true
is_none _ = false

pub is_write : TokenScope → Bool
is_write scope_write = true
is_write _ = false

pub token_from_request : Request → Text
unfolding to_lower trim_space has_prefix
token_from_request r =
    if has_prefix (to_lower r.authorization) (codes "bearer ")
    then trim_space (drop 7 r.authorization)
    else if not (bytes_eq r.api_token [])
    then trim_space r.api_token
    else []

pub read_only_routes : List Text
read_only_routes =
    codes "/api/status"
    ∷ codes "/api/stats"
    ∷ codes "/api/files"
    ∷ codes "/api/download"
    ∷ codes "/api/download/file"
    ∷ codes "/api/download/check"
    ∷ codes "/api/jobs"
    ∷ codes "/api/channels"
    ∷ codes "/api/servers"
    ∷ codes "/api/verify"
    ∷ codes "/api/files/view"
    ∷ codes "/api/files/details"
    ∷ codes "/api/files/raw_chunk"
    ∷ codes "/api/thumb"
    ∷ codes "/api/shares/list"
    ∷ codes "/api/shares/list_all"
    ∷ codes "/api/auth/status"
    ∷ []

pub public_routes : List Text
public_routes =
    codes "/api/auth/status"
    ∷ codes "/api/auth/unlock"
    ∷ codes "/api/auth/set_password"
    ∷ codes "/api/auth/lock"
    ∷ codes "/api/create-token"
    ∷ []

pub is_public_path : Text → Bool
unfolding public_routes has has_prefix
is_public_path path = has path public_routes || has_prefix path (codes "/api/share/")

pub route_requires_read : Text → Bool
unfolding read_only_routes has
route_requires_read path = has path read_only_routes || bytes_eq path (codes "/ws")

-- a path that `requireAuth` lets through to the static frontend
pub is_static : Text → Bool
unfolding has_prefix
is_static path = not (has_prefix path (codes "/api/")) && not (bytes_eq path (codes "/ws"))

pub auth_enabled : Store → Bool × Store
auth_enabled s =
    let w = setting_or_empty settings_key_write_token s in
    let r = setting_or_empty settings_key_read_token w.1 in
    (not (bytes_eq w.0 []) || not (bytes_eq r.0 []), r.1)

-- the credential of a session, from the first place that has one
pub session_token_of : Request → Text
session_token_of r =
    let token = if bytes_eq r.session_header [] then r.session_query else r.session_header in
    if bytes_eq token [] then elim r.session_cookie [ none ↦ [] | some value ↦ value ] else token

-- the last step of `requireAuth`
pub admitted : Text → TokenScope → Verdict
unfolding is_write
admitted path scope_none = unauthorized
admitted path scope =
    if not (route_requires_read path) && not (is_write scope)
    then forbidden
    else served (some scope)

-- `delete` in a loop over the map
pub prune_sessions : ℕ → List (Text × ℕ) → List (Text × ℕ)
prune_sessions clock [] = []
prune_sessions clock ((id, exp) ∷ rest) =
    let kept = prune_sessions clock rest in if ltb exp clock then kept else (id, exp) ∷ kept

pub revoke_all_sessions : Server → Server
revoke_all_sessions srv = record srv { sessions = [] }

-- `checkSession` behind its lookup; `time.Now().After(exp)` is `ltb exp clock`.
pub found_session : Text → Option ℕ → Server → Bool × Server
found_session id none srv = (false, srv)
found_session id (some exp) srv =
    if ltb exp srv.clock
    then (false, record srv { sessions = remove id srv.sessions })
    else (true, record srv { sessions = insert id (srv.clock + session_lifetime) srv.sessions })

module _ (sha256_hex : Text → Text) where
  pub hash_token : Text → Text
  hash_token token = sha256_hex (codes "dfc-api-token:" ++ token)

  pub hash_session_id : Text → Text
  hash_session_id token = sha256_hex (codes "dfc-session:" ++ token)

  pub classify : Text → Store → TokenScope × Store
  classify token s =
      if bytes_eq token []
      then (scope_none, s)
      else (let w = setting_or_empty settings_key_write_token s in
          if not (bytes_eq w.0 []) && bytes_eq (hash_token token) w.0
          then (scope_write, w.1)
          else (let r = setting_or_empty settings_key_read_token w.1 in
              (
                if not (bytes_eq r.0 []) && bytes_eq r.0 (hash_token token)
                    then scope_read
                    else scope_none,
                r.1,
              )))

  pub check_session : Text → Server → Bool × Server
  check_session token srv =
      let id = hash_session_id token in
      if bytes_eq token [] then (false, srv) else found_session id (lookup id srv.sessions) srv

  pub session_valid : Request → Server → Bool × Server
  session_valid r srv = check_session (session_token_of r) srv

  -- `unlocked browser session keeps working`
  pub or_session : Request → TokenScope → Server → TokenScope × Server
  or_session r scope_none srv =
      let v = session_valid r srv in (if v.0 then scope_write else scope_none, v.1)
  or_session r scope srv = (scope, srv)

  pub or_anonymous : Env → TokenScope → TokenScope
  or_anonymous env scope_none = anonymous_scope env
  or_anonymous env scope = scope

  pub scope_of : Env → Request → Server → TokenScope × Server
  scope_of env r srv =
      let token = classify (token_from_request r) srv.store in
      let session = or_session r token.0 (record srv { store = token.1 }) in
      (or_anonymous env session.0, session.1)

  pub require_auth : Env → Request → Server → Verdict × Server
  require_auth env r srv =
      if is_static r.path
      then (served none, srv)
      else if is_public_path r.path
      then (served none, srv)
      else (let enabled = auth_enabled srv.store in
          let srv1 = record srv { store = enabled.1 } in
          if not enabled.0 && is_none (anonymous_scope env)
          then (served none, srv1)
          else (let scope = scope_of env r srv1 in (admitted r.path scope.0, scope.1)))

  -- `issueSession` with the text that the random bytes give; `none` is an error of the generator.
  pub issue_session : Option Text → Server → Option Text × Server
  unfolding prune_sessions
  issue_session none srv = (none, srv)
  issue_session (some token) srv = (
    some token,
    record srv {
      sessions =
          prune_sessions srv.clock
            (insert (hash_session_id token) (srv.clock + session_lifetime) srv.sessions);
    },
  )

  -- what `handleAuthLock` does to the sessions on a POST
  pub lock_session : Option Text → Server → Server
  lock_session none srv = srv
  lock_session (some cookie) srv = record srv {
    sessions = remove (hash_session_id cookie) srv.sessions;
  }
