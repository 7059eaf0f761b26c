-- ===== src/Shares/Tests.antt =====
-- internal/server/share.go on concrete requests, with the identity in place of SHA-256.
use discord_free_cloud.Base.{
  ◌≡◌, refl, ◌<◌, ◌≤◌, [], true, false, some, ok, err, pos, Text, codes, bytes_eq, ltb,
  if◌then◌else◌,
}
use discord_free_cloud.Db.Samples.{file, shelf}
use discord_free_cloud.Shares.{
  max_ttl, ttl_of, share_base_url, handle_share_create, handle_share_public,
}
use discord_free_cloud.Shares.Links.{at, path_of, second_answer, handle_share_create-lives}
use discord_free_cloud.Shares.Host.{IsKnown, share_base_url-IsKnown}
use discord_free_cloud.Db.Files.{first_file}
use discord_free_cloud.Db.Rows.{first_row}

abbrev same_text : Text → Text
same_text t = t

-- a link for one day, asked for in time and two days later
handle_share_create-lives_example :
    let made =
      handle_share_create same_text true true
        (some (file.id, pos 86400))
        (some (codes "t"))
        (codes "i")
        (shelf []) in
    let first =
      handle_share_public same_text true true true (path_of (codes "t")) (at 86400 made.1) in
    let second =
      handle_share_public same_text true true true (path_of (codes "t")) (at 172800 first.1) in
    (made.0
      ≡ ok (record {
        token = codes "t";
        file_id = file.id;
        name = file.name;
        expires_at = ttl_of (pos 86400);
      }))
    × (0 < ttl_of (pos 86400))
    × (ttl_of (pos 86400) ≤ max_ttl)
    × (first.0 ≡ (if ltb (ttl_of (pos 86400)) 86400 then err 410 else ok (file.id, true)))
    × (second.0 ≡ second_answer same_text file.id true (ttl_of (pos 86400)) 86400 172800)
unfolding bytes_eq first_file first_row ttl_of
handle_share_create-lives_example =
    handle_share_create-lives same_text (pos 86400) (codes "t") (codes "i") file (shelf []) true
      86400 172800 refl refl refl refl refl refl

share_base_url-IsKnown_example : IsKnown [] (
    share_base_url [] (record {
      tls = false;
      forwarded_proto = [];
      forwarded_host = codes "evil.example";
      host = codes "127.0.0.1";
    }))
share_base_url-IsKnown_example = share_base_url-IsKnown [] (record {
  tls = false;
  forwarded_proto = [];
  forwarded_host = codes "evil.example";
  host = codes "127.0.0.1";
})
