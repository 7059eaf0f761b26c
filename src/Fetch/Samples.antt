-- ===== src/Fetch/Samples.antt =====
-- internal/downloader/downloader.go with one attachment, which lies under the link "u".
use discord_free_cloud.Base.{
  ℕ, ◌≡◌, refl, List, [], ◌∷◌, some, none, ok, replicate, arith, Text, codes, label, bytes_eq,
  if◌then◌else◌, inl,
}
use discord_free_cloud.Png.{wrap_png}
use discord_free_cloud.Png.RoundTrip.{length-wrap_png}
use discord_free_cloud.Aead.Toy.{toy}
use discord_free_cloud.Aead.RoundTrip.{sealed}
use discord_free_cloud.Db.{ChunkRecord, Store, completed}
use discord_free_cloud.Fetch.{DiscordApi, fetch_single_chunk}
use discord_free_cloud.Fetch.Single.{fetch_single_chunk-own, downloaded, downloaded_direct}

abbrev pub key : List ℕ
key = replicate 32 7

abbrev pub nonce : List ℕ
nonce = replicate 12 1

abbrev pub stored : List ℕ → Text → List ℕ
stored plaintext aad = wrap_png (sealed toy key nonce plaintext aad refl)

abbrev pub serving : List ℕ → DiscordApi (Unit {0})
serving bytes = record {
  download_chunk = λ url w. (if bytes_eq url (codes "u") then some bytes else none, w);
  attachment_url = λ channel message attachment w. (none, w);
}

-- part 0 of the file "f", under a link and with a hash
abbrev pub part : Text → Text → Text → Text → ChunkRecord
part id file_id url sha = record {
  id = id;
  job_id = [];
  file_id = file_id;
  chunk_index = 0;
  byte_offset = 0;
  chunk_size = 2;
  sha256 = sha;
  guild_id = [];
  channel_id = [];
  message_id = codes "m";
  attachment_id = [];
  attachment_url = url;
  status = completed;
  retry_count = 0;
  created_at = 0;
  completed_at = none;
}

abbrev pub catalog : List ChunkRecord → Store
catalog rows = record {
  files = [];
  jobs = [];
  chunks = rows;
  settings = [];
  shares = [];
  faults = [];
  now = 0;
}

abbrev pub own : ChunkRecord
own = part (codes "a") (codes "f") (codes "u") []

abbrev pub expired : ChunkRecord
expired = part (codes "b") (codes "f") (codes "v") []

abbrev pub server : DiscordApi (Unit {0})
server = serving (stored (5 ∷ 6 ∷ []) (label (codes "f") 0))

-- What lies under the link is downloaded by it.
pub served :
    (plaintext : List ℕ) (aad : Text) (chunk : ChunkRecord) (s : Store)
    → chunk.attachment_url ≡ codes "u"
    → downloaded (serving (stored plaintext aad)) toy chunk tt s
      ≡ (some (stored plaintext aad), tt, s)
unfolding bytes_eq
served plaintext aad chunk s link =
    downloaded_direct (serving (stored plaintext aad)) toy chunk tt tt s (stored plaintext aad)
      (rw link) (rw link) (omega (arith, length-wrap_png (sealed toy key nonce plaintext aad refl)))

pub own_fetch :
    (w : Unit {0}) (s : Store)
    → (fetch_single_chunk server toy (codes "f") own key w s).0 ≡ ok (5 ∷ 6 ∷ [])
unfolding bytes_eq
own_fetch w s =
    fetch_single_chunk-own server toy (codes "f") own w w w w s key nonce (5 ∷ 6 ∷ []) [] refl refl
      (omega arith) (omega arith) (inl (refl, refl))
