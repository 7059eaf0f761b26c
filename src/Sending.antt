-- ===== src/Sending.antt =====
-- internal/uploader/uploader.go: `runUpload`. Workers take parts from a channel; each reads its part of
-- the local file, looks for a part with the same hash, seals and posts it otherwise, and records where
-- it went. A step is what a worker does up to its next call of the catalog or of Discord. The workers
-- are alike: the model counts the idle ones and keeps what each busy one is at. SHA-256 in hex, the
-- cipher, the local file and Discord are parameters; telemetry and logs are left out.
pub mod Records
pub mod Truth
pub mod Runs
mod Tests
use discord_free_cloud.Base.{
  ℕ, zero, suc, ◌+◌, List, [], ◌∷◌, ◌++◌, Bool, true, false, ◌&&◌, ◌||◌, not, Option, some, none,
  Result, ok, err, ltb, ◌==◌, if◌then◌else◌, length, Text, label, bytes_eq, ◌≡◌,
}
use discord_free_cloud.Aead.{Aead, CryptoError, encrypt_chunk}
use discord_free_cloud.Png.{wrap_png}
use discord_free_cloud.Db.{FileRecord, JobRecord, ChunkRecord, Store, DbError, done, broken}
use discord_free_cloud.Db.Files.{upsert_file}
use discord_free_cloud.Db.Chunks.{
  Location, find_chunk_by_hash, update_chunk_complete, mark_chunk_failed,
  count_completed_chunks_for_job,
}
use discord_free_cloud.Db.Jobs.{update_job_status, increment_job_completed_chunks}
use discord_free_cloud.Stream.{worker_limit}

-- `partWorkItem`, without the names that only the logs use
pub record PartWorkItem : Type 0 where
  pub chunk : ChunkRecord
  pub webhook : Text
  pub guild_id : Text

-- what `UploadChunk` of the Discord client answers
pub record UploadResult : Type 0 where
  pub channel_id : Text
  pub message_id : Text
  pub attachment_id : Text
  pub attachment_url : Text

-- The call of internal/discord/client.go that an upload makes: the channel, its webhook, the index of
-- the part (which names the file and the message) and the payload; `none` is an error.
pub record UploadApi (W : Type 0) : Type 0 where
  pub upload_chunk :
      (channel webhook : Text) (index : ℕ) (payload : List ℕ) → W → Option UploadResult × W

-- what `ReadAt` gives: the bytes read, and whether there was an error other than the end of the file
pub record ReadResult : Type 0 where
  pub bytes : List ℕ
  pub failed : Bool

pub data UploadError : Type 0 where
  read_error lock_error upload_error : ℕ → UploadError
  dedup_write_error completion_write_error : ℕ → UploadError
  incomplete : UploadError

-- What a busy worker does next. `failing` marks its part as failed; `true` ends the worker.
pub data Phase : Type 0 where
  reading : PartWorkItem → Phase
  looking : PartWorkItem → List ℕ → Phase
  reusing : PartWorkItem → Text → ChunkRecord → Phase
  uploading : PartWorkItem → Text → List ℕ → Phase
  recording : PartWorkItem → Text → UploadResult → Phase
  counting : Phase
  failing : PartWorkItem → UploadError → Bool → Phase

-- what comes of a step of a worker
pub data PhaseOutcome : Type 0 where
  on : Phase → PhaseOutcome
  free : PhaseOutcome
  failed_part : UploadError → Bool → PhaseOutcome

pub item_location : PartWorkItem → UploadResult → Location
item_location item r = record {
  guild = item.guild_id;
  channel = r.channel_id;
  message = r.message_id;
  attachment = r.attachment_id;
  url = r.attachment_url;
}

pub reused_location : PartWorkItem → ChunkRecord → Location
reused_location item c = record {
  guild = item.guild_id;
  channel = c.channel_id;
  message = c.message_id;
  attachment = c.attachment_id;
  url = c.attachment_url;
}

-- behind a write of the catalog
pub written : Phase → Phase → Result DbError (Unit {0}) × Store → PhaseOutcome × Store
written next failed (ok _, s) = (on next, s)
written next failed (err e, s) = (on failed, s)

pub read_phase : PartWorkItem → ReadResult → Phase
read_phase item r =
    if r.failed && (length r.bytes == 0)
    then failing item (read_error item.chunk.chunk_index) false
    else looking item r.bytes

pub upload_phase : PartWorkItem → Text → Option UploadResult → Phase
upload_phase item hash none = failing item (upload_error item.chunk.chunk_index) true
upload_phase item hash (some r) = recording item hash r

module _ {W : Type 0} (api : UploadApi W) (aead : Aead) (sha256_hex : List ℕ → Text)
    (read_at : (offset size : ℕ) → ReadResult) (job : JobRecord) (file : FileRecord)
    (key : List ℕ) where
  -- the payload of a part, if it can be sealed
  pub sealed_or : PartWorkItem → List ℕ → Option (List ℕ) → Phase
  sealed_or item bytes random =
      elim (encrypt_chunk aead random bytes key (label file.id item.chunk.chunk_index)) [
        | err e ↦ failing item (lock_error item.chunk.chunk_index) false
        | ok payload ↦ uploading item (sha256_hex bytes) (wrap_png payload)
      ]

  -- behind the look for a part with the same hash; an error counts as none
  pub after_look :
      PartWorkItem
      → List ℕ
      → Option (List ℕ)
      → Result DbError (Option ChunkRecord) × Store
      → PhaseOutcome × Store
  unfolding sealed_or
  after_look item bytes random (err e, s) = (on (sealed_or item bytes random), s)
  after_look item bytes random (ok none, s) = (on (sealed_or item bytes random), s)
  after_look item bytes random (ok (some c), s) =
      if bytes_eq c.attachment_url []
      then (on (sealed_or item bytes random), s)
      else (on (reusing item (sha256_hex bytes) c), s)

  -- A step of a busy worker; `random` is what the random generator gives if it is asked.
  pub advance : Option (List ℕ) → Phase → W → Store → (PhaseOutcome × Store) × W
  unfolding read_phase after_look upload_phase written item_location reused_location
  advance random (reading item) w s =
      ((on (read_phase item (read_at item.chunk.byte_offset item.chunk.chunk_size)), s), w)
  advance random (looking item bytes) w s =
      (after_look item bytes random (find_chunk_by_hash (sha256_hex bytes) s), w)
  advance random (reusing item hash c) w s = (
    written counting (failing item (dedup_write_error item.chunk.chunk_index) false)
        (update_chunk_complete item.chunk.id (reused_location item c) hash s),
    w,
  )
  advance random (uploading item hash payload) w s =
      let (r, w') =
        api.upload_chunk item.chunk.channel_id item.webhook item.chunk.chunk_index payload w in
      ((on (upload_phase item hash r), s), w')
  advance random (recording item hash r) w s = (
    written counting (failing item (completion_write_error item.chunk.chunk_index) false)
        (update_chunk_complete item.chunk.id (item_location item r) hash s),
    w,
  )
  advance random counting w s = ((free, (increment_job_completed_chunks job.id s).1), w)
  advance random (failing item e stops) w s =
      ((failed_part e stops, (mark_chunk_failed item.chunk.id s).1), w)

  -- `ended` is whether the upload has been reported as complete.
  pub record Sending : Type 0 where
    pub queue : List PartWorkItem
    pub idle : ℕ
    pub busy : List Phase
    pub errors : List UploadError
    pub stopped : Bool
    pub net : W
    pub store : Store
    pub ended : Option Bool

  -- where the worker goes
  pub resumed : PhaseOutcome → List Phase → Sending → Sending
  resumed (on p) others s = record s { busy = p ∷ others }
  resumed free others s = record s { busy = others; idle = suc s.idle }
  resumed (failed_part e true) others s = record s { busy = others; errors = s.errors ++ (e ∷ []) }
  resumed (failed_part e false) others s = record s {
    busy = others;
    idle = suc s.idle;
    errors = s.errors ++ (e ∷ []);
  }

  -- a step of the worker at `phase`, the others being at theirs
  pub worked : Option (List ℕ) → Phase → List Phase → Sending → Sending
  unfolding resumed
  worked random phase others s =
      let r = advance random phase s.net s.store in
      resumed r.0.0 others (record s { store = r.0.1; net = r.1 })

  -- an error of the count counts as zero
  pub count_or_zero : Result DbError ℕ → ℕ
  count_or_zero (ok n) = n
  count_or_zero (err e) = 0

  -- `file.SHA256` behind the upload; `hash` is none if the file cannot be read again.
  pub hashed_file : Option Text → FileRecord
  hashed_file none = file
  hashed_file (some hash) = if bytes_eq file.sha256 [] then record file { sha256 = hash } else file

  -- The end of `runUpload`, behind `wg.Wait`.
  pub close_upload : Option Text → Sending → Sending
  unfolding count_or_zero hashed_file
  close_upload hash s =
      let count = count_completed_chunks_for_job job.id s.store in
      if not (length s.errors == 0) || ltb (count_or_zero count.0) job.total_chunks
      then record s { store = (update_job_status job.id broken count.1).1; ended = some false }
      else record s {
        store = (update_job_status job.id done (upsert_file (hashed_file hash) count.1).1).1;
        ended = some true;
      }

  pub data Step (s : Sending) : Sending → Type 0 where
    cancel : Step s (record s { stopped = true })
    take :
        (item : PartWorkItem) (items : List PartWorkItem) (n : ℕ)
        → s.queue ≡ item ∷ items
        → s.idle ≡ suc n
        → Step s (record s { queue = items; idle = n; busy = reading item ∷ s.busy })
    leave : (n : ℕ) → s.queue ≡ [] → s.idle ≡ suc n → Step s (record s { idle = n })
    quit : (n : ℕ) → s.stopped ≡ true → s.idle ≡ suc n → Step s (record s { idle = n })
    work :
        (before after : List Phase) (phase : Phase) (random : Option (List ℕ))
        → s.busy ≡ before ++ (phase ∷ after)
        → Step s (worked random phase (before ++ after) s)
    close :
        (hash : Option Text)
        → s.ended ≡ none
        → s.idle ≡ 0
        → s.busy ≡ []
        → Step s (close_upload hash s)

  pub data Reach (start : Sending) : Sending → Type 0 where
    begin : Reach start start
    later : {s t : Sending} → Reach start s → Step s t → Reach start t

  -- `runUpload` behind the opening of the local file
  pub begun : ℕ → List PartWorkItem → W → Store → Sending
  begun workers items w s = record {
    queue = items;
    idle = worker_limit workers (length items);
    busy = [];
    errors = [];
    stopped = false;
    net = w;
    store = s;
    ended = none;
  }
