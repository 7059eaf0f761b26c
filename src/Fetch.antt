-- ===== src/Fetch.antt =====
-- internal/downloader/downloader.go: `fetchSingleChunk` and `fetchChunk`. The Discord client is an
-- interface: each call may answer or fail as its state `W` says, the waits and the cancellation
-- of the context included.
pub mod Single
pub mod Cached
pub mod Copies
pub mod Sound
pub mod Samples
mod Tests
use discord_free_cloud.Base.{
  ℕ, List, [], ◌∷◌, ◌++◌, Bool, true, false, ◌&&◌, ◌||◌, not, Option, some, none, Result, ok, err,
  length, ◌==◌, if◌then◌else◌, Text, codes, label, bytes_eq,
}
use discord_free_cloud.Png.{unwrap_png}
use discord_free_cloud.Aead.{Aead, CryptoError, decrypt_chunk}
use discord_free_cloud.Cache.{Cache, get_cached_chunk, put_cached_chunk}
use discord_free_cloud.Db.{ChunkRecord, Store, DbError, completed}
use discord_free_cloud.Db.Chunks.{
  Location, get_chunks_for_file, find_chunks_by_hash, update_chunk_with_guild, is_completed,
}

-- The two calls of `discord.Client` that a download makes; `none` is an error.
pub record DiscordApi (W : Type 0) : Type 0 where
  pub download_chunk : Text → W → Option (List ℕ) × W
  pub attachment_url : (channel message attachment : Text) → W → Option Text × W

-- What the engine shares between its goroutines.
pub record Engine (W : Type 0) : Type 0 where
  pub net : W
  pub store : Store
  pub cache : Cache

-- `out_of_fuel` is no Go error: `UnwrapPNG` did not end.
pub data FetchError : Type 0 where
  download_error unlock_error out_of_fuel : FetchError

-- `err == nil && len(bytes) > 0`
pub is_good : Option (List ℕ) → Bool
is_good none = false
is_good (some bytes) = not (length bytes == 0)

-- the additional data under which a part may have been sealed, in the order of the attempts
pub hash_candidates : List ChunkRecord → List Text
hash_candidates [] = []
hash_candidates (o ∷ origs) = label o.file_id o.chunk_index ∷ hash_candidates origs

pub found_rows {ℓ} : {E : Type ℓ} → Result E (List ChunkRecord) → List ChunkRecord
found_rows (ok rows) = rows
found_rows (err e) = []

pub candidates : Text → ChunkRecord → List ChunkRecord → List Text
candidates file_id chunk origs =
    (label file_id chunk.chunk_index ∷ [])
    ++ ((if not (bytes_eq chunk.file_id []) && not (bytes_eq chunk.file_id file_id)
          then label chunk.file_id chunk.chunk_index ∷ []
          else [])
        ++ (hash_candidates origs
            ++ (codes "discord_chunk_v1" ∷ label (codes "chunk") chunk.chunk_index ∷ [] ∷ [])))

-- one attempt of the loop over `candidates`: an empty plaintext does not count
pub accepted : Result CryptoError (List ℕ) → Option (List ℕ) → Option (List ℕ)
accepted (ok dec) rest = if length dec == 0 then rest else some dec
accepted (err e) rest = rest

-- `if decryptedBytes == nil`
pub unlocked : Option (List ℕ) → Result FetchError (List ℕ)
unlocked none = err unlock_error
unlocked (some dec) = ok dec

-- the new location of a part: as before, with the fresh link
pub relocated : ChunkRecord → Text → Location
relocated chunk url = record {
  guild = chunk.guild_id;
  channel = chunk.channel_id;
  message = chunk.message_id;
  attachment = chunk.attachment_id;
  url = url;
}

-- whether a row is another copy of the same part
pub is_alternative : ChunkRecord → ChunkRecord → Bool
unfolding is_completed
is_alternative chunk alt =
    not (bytes_eq alt.id chunk.id)
    && (alt.chunk_index == chunk.chunk_index)
    && is_completed alt.status

module _ (aead : Aead) where
  -- the loop over `candidates`: the first that opens the payload to something
  pub try_candidates : (payload key : List ℕ) → List Text → Option (List ℕ)
  unfolding accepted
  try_candidates payload key [] = none
  try_candidates payload key (aad ∷ aads) =
      accepted (decrypt_chunk aead payload key aad) (try_candidates payload key aads)

  opened_payload : (key : List ℕ) → List Text → Option (List ℕ) → Result FetchError (List ℕ)
  unfolding unlocked try_candidates
  opened_payload key aads none = err out_of_fuel
  opened_payload key aads (some payload) = unlocked (try_candidates payload key aads)

  -- unwrapping and unlocking what was downloaded
  pub unlock : (key : List ℕ) → List Text → List ℕ → Result FetchError (List ℕ)
  unfolding opened_payload
  unlock key aads enc_bytes = opened_payload key aads (unwrap_png enc_bytes)

-- the rows of the same hash, which are asked for if the part has a hash
pub originals : ChunkRecord → Store → List ChunkRecord × Store
unfolding found_rows
originals chunk s =
    if bytes_eq chunk.sha256 []
    then ([], s)
    else (let (rows, s1) = find_chunks_by_hash chunk.sha256 s in (found_rows rows, s1))

module _ {W : Type 0} (api : DiscordApi W) where
  -- The download by the recorded link; without one `encBytes` and `err` are nil.
  pub first_download : ChunkRecord → W → Option (List ℕ) × W
  first_download chunk w =
      if bytes_eq chunk.attachment_url []
      then (some [], w)
      else api.download_chunk chunk.attachment_url w

  -- a download by a fresh link, which is recorded if it serves
  pub refreshed : ChunkRecord → Text → Option (List ℕ) × W → Store → Option (List ℕ) × W × Store
  refreshed chunk url (again, w) s =
      if is_good again
      then (again, w, (update_chunk_with_guild chunk.id completed (relocated chunk url) s).1)
      else (again, w, s)

  pub by_fresh_link :
      ChunkRecord → Option (List ℕ) → Option Text × W → Store → Option (List ℕ) × W × Store
  by_fresh_link chunk got (none, w) s = (got, w, s)
  by_fresh_link chunk got (some url, w) s =
      if bytes_eq url [] then (got, w, s) else refreshed chunk url (api.download_chunk url w) s

  -- the second attempt, for a part that has not been downloaded and whose message is known
  pub fresh_download : ChunkRecord → Option (List ℕ) × W → Store → Option (List ℕ) × W × Store
  fresh_download chunk (got, w) s =
      if not (is_good got)
        && not (bytes_eq chunk.channel_id [])
        && not (bytes_eq chunk.message_id [])
      then by_fresh_link chunk got
          (api.attachment_url chunk.channel_id chunk.message_id chunk.attachment_id w) s
      else (got, w, s)

module _ {W : Type 0} (api : DiscordApi W) (aead : Aead) where
  -- what follows the downloads
  pub unlock_download :
      Text
      → ChunkRecord
      → List ℕ
      → Option (List ℕ) × W × Store
      → Result FetchError (List ℕ) × W × Store
  unlock_download file_id chunk key (none, w, s) = (err download_error, w, s)
  unlock_download file_id chunk key (some enc_bytes, w, s) =
      if length enc_bytes == 0
      then (err download_error, w, s)
      else (let (origs, s1) = originals chunk s in
          (unlock aead key (candidates file_id chunk origs) enc_bytes, w, s1))

  pub fetch_single_chunk :
      Text → ChunkRecord → List ℕ → W → Store → Result FetchError (List ℕ) × W × Store
  fetch_single_chunk file_id chunk key w s =
      unlock_download file_id chunk key (fresh_download api chunk (first_download api chunk w) s)

  -- one round of the loop of `fetchChunk` over the other copies, on what the copy gave
  pub taken :
      Result FetchError (List ℕ) × W × Store
      → Option (List ℕ) × W × Store
      → Option (List ℕ) × W × Store
  taken (ok bytes, w, s) next = if length bytes == 0 then next else (some bytes, w, s)
  taken (err e, w, s) next = next

  -- The loop of `fetchChunk` over the other copies: the first that can be fetched.
  pub try_copies :
      Text → ChunkRecord → List ℕ → List ChunkRecord → W → Store → Option (List ℕ) × W × Store
  try_copies file_id chunk key [] w s = (none, w, s)
  try_copies file_id chunk key (alt ∷ alts) w s =
      let skip = try_copies file_id chunk key alts w s in
      let t = fetch_single_chunk file_id alt key w s in
      let next = try_copies file_id chunk key alts t.1 t.2 in
      if is_alternative chunk alt then taken t next else skip

  -- what `fetchChunk` returns after its loop, `first` being what the part itself gave
  pub with_first :
      Result FetchError (List ℕ)
      → Option (List ℕ) × W × Store
      → Result FetchError (List ℕ) × W × Store
  with_first first (none, w, s) = (first, w, s)
  with_first first (some bytes, w, s) = (ok bytes, w, s)

  pub fetch_copies :
      Text
      → ChunkRecord
      → List ℕ
      → Result FetchError (List ℕ)
      → W
      → Result DbError (List ChunkRecord) × Store
      → Result FetchError (List ℕ) × W × Store
  fetch_copies file_id chunk key first w (err e, s) = (first, w, s)
  fetch_copies file_id chunk key first w (ok rows, s) =
      with_first first (try_copies file_id chunk key rows w s)

  -- `putCachedChunk` is skipped on a failure; Go returns `nil` bytes beside the first error.
  pub remember :
      Text → Cache → Result FetchError (List ℕ) × W × Store → Result FetchError (List ℕ) × Engine W
  remember cache_key c (ok bytes, w, s) =
      (ok bytes, record { net = w; store = s; cache = put_cached_chunk c cache_key bytes })
  remember cache_key c (err e, w, s) = (err e, record { net = w; store = s; cache = c })

  -- the other copies, if the part itself gave nothing
  pub or_copies :
      Text
      → ChunkRecord
      → List ℕ
      → Result FetchError (List ℕ) × W × Store
      → Result FetchError (List ℕ) × W × Store
  or_copies file_id chunk key (ok bytes, w, s) =
      if length bytes == 0
      then fetch_copies file_id chunk key (ok bytes) w (get_chunks_for_file file_id s)
      else (ok bytes, w, s)
  or_copies file_id chunk key (err e, w, s) =
      fetch_copies file_id chunk key (err e) w (get_chunks_for_file file_id s)

  pub cached_or :
      Engine W
      → Option (List ℕ)
      → Result FetchError (List ℕ) × Engine W
      → Result FetchError (List ℕ) × Engine W
  cached_or e (some cached) fetched = (ok cached, e)
  cached_or e none fetched = fetched

  pub fetch_chunk : Text → ChunkRecord → List ℕ → Engine W → Result FetchError (List ℕ) × Engine W
  fetch_chunk file_id chunk key e =
      let cache_key = label file_id chunk.chunk_index in
      cached_or e (get_cached_chunk e.cache cache_key) (
        remember cache_key e.cache
          (or_copies file_id chunk key (fetch_single_chunk file_id chunk key e.net e.store)))
