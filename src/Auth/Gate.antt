-- ===== src/Auth/Gate.antt =====
-- internal/server/auth.go: what `requireAuth` lets through.
use discord_free_cloud.Base.{
  codes, ◌≡◌, ◌≢◌, refl, List, [], ◌∷◌, Bool, true, false, ◌&&◌, not, none, if◌then◌else◌, arith,
  Text, bytes_eq,
}
use discord_free_cloud.Db.{Store}
use discord_free_cloud.Db.Faults.{later}
use discord_free_cloud.Db.Settings.{
  setting_or_empty, stored, setting_or_empty-online, setting_or_empty-offline,
}
use discord_free_cloud.Auth.{
  TokenScope, scope_none, scope_read, scope_write, Env, Request, Server, served,
  settings_key_write_token, settings_key_read_token, anonymous_scope, is_none, token_from_request,
  is_public_path, route_requires_read, is_static, auth_enabled, hash_token, classify, session_valid,
  require_auth,
}

-- The routes of the server at which the drive, its catalog, its bots, servers, shares or settings are
-- changed, but for the five public ones, which have rules of their own.
abbrev pub changing_routes : List Text
changing_routes =
    codes "/api/settings"
    ∷ codes "/api/auto-setup"
    ∷ codes "/api/channels/clean"
    ∷ codes "/api/files/create_text"
    ∷ codes "/api/folders/create"
    ∷ codes "/api/upload/file"
    ∷ codes "/api/upload/dir"
    ∷ codes "/api/upload"
    ∷ codes "/api/delete"
    ∷ codes "/api/catalog/sync"
    ∷ codes "/api/catalog/restore"
    ∷ codes "/api/jobs/cancel"
    ∷ codes "/api/bots/add"
    ∷ codes "/api/bots/delete"
    ∷ codes "/api/servers/sync"
    ∷ codes "/api/servers/setup_channels"
    ∷ codes "/api/shares/create"
    ∷ codes "/api/shares/revoke"
    ∷ codes "/api/files/rename"
    ∷ codes "/api/files/move"
    ∷ codes "/api/files/favorite"
    ∷ codes "/api/files/trash"
    ∷ codes "/api/files/restore"
    ∷ codes "/api/files/batch"
    ∷ []

-- a path that `requireAuth` asks the write scope for
abbrev pub IsWriteRoute : Text → Type 0
IsWriteRoute path =
    (is_static path ≡ false) × (is_public_path path ≡ false) × (route_requires_read path ≡ false)

write_only : Text → Bool
write_only path =
    not (is_static path) && not (is_public_path path) && not (route_requires_read path)

all_write_only : List Text → Bool
all_write_only [] = true
all_write_only (path ∷ paths) = write_only path && all_write_only paths

abbrev pub no_token : Store → Bool
no_token s =
    bytes_eq (stored settings_key_write_token s) []
    && bytes_eq (stored settings_key_read_token s) []

-- Errors of the catalog look like tokens that are not stored.
auth_enabled-offline :
    (s : Store) (left : List Bool)
    → s.faults ≡ true ∷ true ∷ left
    → auth_enabled s ≡ (false, later s left)
unfolding auth_enabled bytes_eq
auth_enabled-offline s left e =
    let second : setting_or_empty settings_key_read_token (later s (true ∷ left))
        ≡ ([], later s left) =
      setting_or_empty-offline settings_key_read_token (later s (true ∷ left)) left refl in
    rw (setting_or_empty-offline settings_key_write_token s (true ∷ left) e) (rw second refl)

module _ (sha256_hex : Text → Text) where
  -- the reasons for which a write route is served
  pub data Grounds (env : Env) (r : Request) (srv : Server) : Type 0 where
    write_token :
        stored settings_key_write_token srv.store ≢ []
        → token_from_request r ≢ []
        → hash_token sha256_hex (token_from_request r) ≡ stored settings_key_write_token srv.store
        → Grounds env r srv
    session : (session_valid sha256_hex r srv).0 ≡ true → Grounds env r srv
    public_full : anonymous_scope env ≡ scope_write → Grounds env r srv
    first_run : no_token srv.store ≡ true → anonymous_scope env ≡ scope_none → Grounds env r srv

  -- the scope of a token by what is stored
  abbrev pub scope_by : Text → Store → TokenScope
  scope_by token s =
      let w = stored settings_key_write_token s in
      let r = stored settings_key_read_token s in
      if bytes_eq token []
      then scope_none
      else if not (bytes_eq w []) && bytes_eq (hash_token sha256_hex token) w
      then scope_write
      else if not (bytes_eq r []) && bytes_eq r (hash_token sha256_hex token)
      then scope_read
      else scope_none

  pub classify-online :
      (token : Text) (s : Store)
      → s.faults ≡ []
      → classify sha256_hex token s ≡ (scope_by token s, s)
  unfolding classify
  classify-online token s e =
      rw (setting_or_empty-online settings_key_write_token s e)
        (rw (setting_or_empty-online settings_key_read_token s e) (ground arith))

  -- If both reads of the stored tokens fail and the public mode is off, every request is served with
  -- no credential asked for, whatever tokens are stored.
  pub require_auth_fails_open :
      (env : Env) (r : Request) (srv : Server) (left : List Bool)
      → srv.store.faults ≡ true ∷ true ∷ left
      → anonymous_scope env ≡ scope_none
      → (require_auth sha256_hex env r srv).0 ≡ served none
  unfolding require_auth is_none
  require_auth_fails_open env r srv left down off =
      rw (auth_enabled-offline srv.store left down, off) (ground arith)
