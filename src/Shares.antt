-- ===== src/Shares.antt =====
-- internal/server/share.go: the handlers of share links. An answer is the value that the handler
-- sends with status 200, or another status of HTTP; SHA-256 in hex is a parameter. A handler takes
-- whether the method fits and whether the drive is unlocked, and the body as decoded, `none` if that
-- fails. What `handleSharePublic` hands to `handleStreamDownload` is its answer.
pub mod Links
pub mod Host
mod Tests
use discord_free_cloud.Base.{
  ℕ, zero, suc, ◌+◌, ◌*◌, List, [], ◌∷◌, ◌++◌, Bool, true, false, ◌&&◌, ◌||◌, not, Option, some,
  none, Result, ok, err, ltb, if◌then◌else◌, length, drop, map, ℤ, pos, negsuc, Text, codes,
  bytes_eq, has_prefix, trim_space,
}
use discord_free_cloud.Db.{FileRecord, ShareRecord, Store, DbError}
use discord_free_cloud.Db.Files.{get_file}
use discord_free_cloud.Db.Shares.{
  ListedShare, create_share, get_share, get_share_by_id, touch_share, delete_share_by_id,
  list_shares_for_file, list_all_shares,
}

abbrev pub default_ttl : ℕ
default_ttl = 7 * 24 * 3600

abbrev pub max_ttl : ℕ
max_ttl = 365 * 24 * 3600

-- how long a link lives, from the seconds that the request asks for
pub ttl_of : ℤ → ℕ
ttl_of (negsuc n) = default_ttl
ttl_of (pos zero) = default_ttl
ttl_of (pos (suc n)) = if ltb max_ttl (suc n) then max_ttl else suc n

-- what the handler answers, the address of the link left out
pub record Link : Type 0 where
  pub token : Text
  pub file_id : Text
  pub name : Text
  pub expires_at : ℕ

pub record ShareView : Type 0 where
  pub id : Text
  pub file_id : Text
  pub file_name : Text
  pub expires_at : ℕ
  pub created_at : ℕ
  pub downloads : ℕ
  pub expired : Bool

unfoldable pub trim_api_prefix : Text → Text → Text
unfolding has_prefix
trim_api_prefix path prefix = if has_prefix path prefix then drop (length prefix) path else []

-- What `shareBaseURL` reads of a request; a header that is missing is empty.
pub record Origin : Type 0 where
  pub tls : Bool
  pub forwarded_proto : Text
  pub forwarded_host : Text
  pub host : Text

abbrev pub default_host : Text
default_host = codes "drive.otherworld.bond"

-- `DFCShareHost` with the value of DFC_SHARE_HOST
pub dfc_share_host : Text → Text
unfolding trim_space
dfc_share_host variable =
    let host = trim_space variable in if bytes_eq host [] then default_host else host

pub url_of : (scheme host : Text) → Text
url_of scheme host = scheme ++ codes "://" ++ host ++ codes "/api"

pub share_base_url : Text → Origin → Text
unfolding dfc_share_host url_of
share_base_url variable r =
    let scheme =
      if r.tls || bytes_eq r.forwarded_proto (codes "https") then codes "https" else codes "http" in
    let host = if bytes_eq r.forwarded_host [] then r.host else r.forwarded_host in
    let configured = dfc_share_host variable in
    if (bytes_eq host [] || not (bytes_eq host default_host)) && not (bytes_eq configured [])
    then url_of (codes "https") configured
    else url_of scheme host

-- the rows of the Links view
view_of_listed : ListedShare → ShareView
view_of_listed e = record {
  id = e.share.id;
  file_id = e.share.file_id;
  file_name = e.file_name;
  expires_at = e.share.expires_at;
  created_at = e.share.created_at;
  downloads = e.share.downloads;
  expired = e.expired;
}

-- `name` if `GetFile` gives a row
name_of : Result DbError FileRecord → Text
name_of (ok f) = f.name
name_of (err e) = []

view_of : ShareRecord → Text → ℕ → ShareView
view_of r name now = record {
  id = r.id;
  file_id = r.file_id;
  file_name = name;
  expires_at = r.expires_at;
  created_at = r.created_at;
  downloads = r.downloads;
  expired = ltb r.expires_at now;
}

views_of : List ShareRecord → Store → List ShareView × Store
unfolding name_of view_of
views_of [] s = ([], s)
views_of (r ∷ rs) s =
    let file = get_file r.file_id s in
    let rest = views_of rs file.1 in (view_of r (name_of file.0) s.now ∷ rest.0, rest.1)

list_answer : Result DbError (List ShareRecord) × Store → Result ℕ (List ShareView) × Store
unfolding views_of
list_answer (err e, s) = (err 500, s)
list_answer (ok rows, s) = let v = views_of rows s in (ok v.0, v.1)

pub handle_share_list : Bool → Text → Store → Result ℕ (List ShareView) × Store
unfolding list_answer
handle_share_list get file_id s =
    if not get
    then (err 405, s)
    else if bytes_eq file_id []
    then (err 400, s)
    else list_answer (list_shares_for_file file_id s)

all_answer : Result DbError (List ListedShare) × Store → Result ℕ (List ShareView) × Store
unfolding view_of_listed
all_answer (err e, s) = (err 500, s)
all_answer (ok rows, s) = (ok (map view_of_listed rows), s)

pub handle_share_list_all : Bool → Store → Result ℕ (List ShareView) × Store
unfolding all_answer
handle_share_list_all get s = if not get then (err 405, s) else all_answer (list_all_shares s.now s)

unfoldable pub status_of : Result DbError (Unit {0}) × Store → Result ℕ (Unit {0}) × Store
status_of (ok _, s) = (ok tt, s)
status_of (err e, s) = (err 500, s)

unfoldable pub delete_found :
    Text → Result DbError (Option ShareRecord) × Store → Result ℕ (Unit {0}) × Store
unfolding status_of
delete_found id (err e, s) = (err 500, s)
delete_found id (ok none, s) = (err 404, s)
delete_found id (ok (some r), s) = status_of (delete_share_by_id id s)

unfoldable pub handle_share_revoke : Bool → Option Text → Store → Result ℕ (Unit {0}) × Store
unfolding delete_found
handle_share_revoke post body s = if not post then (err 405, s) else elim body [
  | none ↦ (err 400, s)
  | some id ↦ (if bytes_eq id [] then (err 400, s) else delete_found id (get_share_by_id id s))
]

module _ (sha256_hex : Text → Text) where
  pub hash_share : Text → Text
  hash_share token = sha256_hex (codes "dfc-share:" ++ token)

  -- the end of `handleShareCreate`, behind the call of `CreateShare`
  pub link_made : Link → Result DbError (Unit {0}) × Store → Result ℕ Link × Store
  link_made link (ok _, s) = (ok link, s)
  link_made link (err e, s) = (err 500, s)

  pub link_for : FileRecord → ℕ → Option Text → Text → Store → Result ℕ Link × Store
  unfolding link_made
  link_for f ttl none id s = (err 500, s)
  link_for f ttl (some token) id s =
      let expires = s.now + ttl in
      link_made (record { token = token; file_id = f.id; name = f.name; expires_at = expires })
        (create_share id (hash_share token) f.id expires s)

  pub share_file :
      Result DbError FileRecord × Store → ℕ → Option Text → Text → Result ℕ Link × Store
  unfolding link_for
  share_file (err e, s) ttl generated id = (err 404, s)
  share_file (ok f, s) ttl generated id =
      if f.is_dir then (err 404, s) else link_for f ttl generated id s

  pub handle_share_create :
      (post unlocked : Bool) (body : Option (Text × ℤ)) (generated : Option Text) (id : Text)
      → Store
      → Result ℕ Link × Store
  unfolding share_file ttl_of
  handle_share_create post unlocked body generated id s =
      if not post then (err 405, s) else if not unlocked then (err 423, s) else elim body [
        | none ↦ (err 400, s)
        | some (file_id, expires_in) ↦
            (if bytes_eq file_id []
              then (err 400, s)
              else share_file (get_file file_id s) (ttl_of expires_in) generated id)
      ]

  -- the end of `handleSharePublic`, with the file of the link
  pub serve_file :
      Text → ShareRecord → Bool → Result DbError FileRecord × Store → Result ℕ (Text × Bool) × Store
  serve_file hash share inline (err e, s) = (err 404, s)
  serve_file hash share inline (ok f, s) = (ok (share.file_id, inline), (touch_share hash s).1)

  pub serve_share :
      Text → Bool → Result DbError (Option ShareRecord) × Store → Result ℕ (Text × Bool) × Store
  unfolding serve_file
  serve_share hash inline (err e, s) = (err 404, s)
  serve_share hash inline (ok none, s) = (err 404, s)
  serve_share hash inline (ok (some share), s) =
      if ltb share.expires_at s.now
      then (err 410, (delete_share_by_id share.id s).1)
      else serve_file hash share inline (get_file share.file_id s)

  pub handle_share_public :
      (readable unlocked inline : Bool) (path : Text) → Store → Result ℕ (Text × Bool) × Store
  unfolding serve_share
  handle_share_public readable unlocked inline path s =
      let token = trim_api_prefix path (codes "/api/share/") in
      if not readable
      then (err 405, s)
      else if bytes_eq token []
      then (err 404, s)
      else if not unlocked
      then (err 423, s)
      else serve_share (hash_share token) inline (get_share (hash_share token) s)
