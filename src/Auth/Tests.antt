-- ===== src/Auth/Tests.antt =====
-- internal/server/auth.go on concrete requests, with the identity in place of SHA-256.
use discord_free_cloud.Base.{
  ◌≡◌, refl, List, [], ◌∷◌, Bool, true, false, some, none, Text, codes, inr, ◌++◌, ◌+◌, bytes_eq,
}
use discord_free_cloud.Cache.Valid.{present}
use discord_free_cloud.Db.{Store}
use discord_free_cloud.Db.Samples.{shelf}
use discord_free_cloud.Db.Settings.{stored, setting_or_empty}
use discord_free_cloud.Auth.{
  Env, Request, Server, served, scope_none, settings_key_write_token, session_lifetime,
  require_auth, anonymous_scope, token_from_request, hash_token, hash_session_id, check_session,
  classify, is_write, session_token_of, session_valid,
}
use discord_free_cloud.Auth.Gate.{require_auth_fails_open}
use discord_free_cloud.Auth.Sessions.{
  Event, browse, login, pass, run, session_run, session_of, check_session-run,
}
use discord_free_cloud.Auth.Tokens.{
  handle_create_token, token_or_session, is_direct, handle_create_token-keeps,
  signin_password_matches, scope_allows_write,
}

abbrev same_text : Text → Text
same_text t = t

abbrev env : Env
env = record { public_access = []; api_token_write = []; api_token_read = [] }

-- a request of the frontend's machine with a bearer token
abbrev asking : Text → Text → Request
asking path token = record {
  path = path;
  authorization = codes "Bearer " ++ token;
  api_token = [];
  session_header = [];
  session_query = [];
  session_cookie = none;
  remote_host = some (codes "127.0.0.1");
  cf_connecting_ip = codes "10.0.0.1";
}

abbrev store : List Bool → Store
store faults = record (shelf []) {
  settings = (settings_key_write_token, codes "dfc-api-token:w") ∷ [];
  faults = faults;
}

abbrev server : List Bool → Server
server faults = record { store = store faults; sessions = []; clock = 5 }

require_auth_fails_open_example :
    (require_auth same_text env (asking (codes "/api/delete") []) (server (true ∷ true ∷ []))).0
    ≡ served none
unfolding anonymous_scope bytes_eq
require_auth_fails_open_example =
    require_auth_fails_open same_text env (asking (codes "/api/delete") [])
      (server (true ∷ true ∷ [])) [] refl refl

-- a login, a pause and a visit in time, then a pause that is too long
abbrev day : List Event
day =
    login (some (codes "a"))
    ∷ pass 100
    ∷ browse (codes "a")
    ∷ login (some (codes "b"))
    ∷ pass (session_lifetime + 1)
    ∷ []

visited :
    present
      (session_run same_text
        (codes "dfc-session:a")
        day
        (session_of same_text (codes "dfc-session:a") (server []))).deadline
    ≡ false
unfolding session_run bytes_eq hash_session_id
visited = refl

check_session-run_example :
    (check_session same_text (codes "a") (run same_text day (server []))).0
    ≡ present
        (session_run same_text
          (hash_session_id same_text (codes "a"))
          day
          (session_of same_text (hash_session_id same_text (codes "a")) (server []))).deadline
unfolding bytes_eq
check_session-run_example = check_session-run same_text (codes "a") day (server []) tt refl

-- a request with a wrong token, through the tunnel
handle_create_token-keeps_example :
    stored settings_key_write_token
      (handle_create_token same_text true
        (codes "write")
        (some (codes "n"))
        (asking (codes "/api/create-token") (codes "x"))
        (server [])).1.store
    ≡ stored settings_key_write_token (server []).store
unfolding token_or_session is_write classify bytes_eq token_from_request setting_or_empty hash_token
    session_valid check_session session_token_of is_direct
handle_create_token-keeps_example =
    handle_create_token-keeps same_text true (codes "write") (some (codes "n"))
      (asking (codes "/api/create-token") (codes "x")) (server []) settings_key_write_token refl
      refl (inr refl)

right_password : signin_password_matches (codes " pw ") (codes "pw") ≡ true
unfolding signin_password_matches bytes_eq
right_password = refl

read_token_refused : scope_allows_write (some scope_none) ≡ false
unfolding scope_allows_write is_write
read_token_refused = refl
