-- ===== src/Sending/Truth.antt =====
-- internal/uploader/uploader.go: the hashes that an upload records are those of the file's parts.
use discord_free_cloud.Base.{
  ℕ, ◌+◌, ◌≡◌, ◌⊎◌, inl, inr, refl, ap, ◌∙◌, List, [], ◌∷◌, ◌++◌, true, false, ◌&&◌, Option, some,
  none, Result, ok, err, ◌==◌, length, slice, Text, label, bytes_eq, Bool-cases,
}
use discord_free_cloud.Aead.{Aead, encrypt_chunk}
use discord_free_cloud.Png.{wrap_png}
use discord_free_cloud.Db.{FileRecord, JobRecord, ChunkRecord, Store, DbError}
use discord_free_cloud.Db.Chunks.{
  find_chunk_by_hash, find_chunk_by_hash-chunks, update_chunk_complete,
}
use discord_free_cloud.Download.Range.{piece_of}
use discord_free_cloud.Sending.{
  PartWorkItem, UploadApi, UploadResult, ReadResult, UploadError, Phase, reading, looking, reusing,
  uploading, recording, counting, failing, PhaseOutcome, on, free, failed_part, item_location,
  reused_location, written, read_phase, upload_phase, sealed_or, after_look, advance,
}
use discord_free_cloud.Sending.Records.{
  AllRows, SameRanges, HasTrueHash, Fits, Fits-SameRanges, Keeps, Keeps-same,
  update_chunk_complete-Keeps, mark_chunk_failed-Keeps, increment_job_completed_chunks-chunks,
}

module _ (sha256_hex : List ℕ → Text) (content : List ℕ) (job_id : Text) where
  -- What a busy worker holds: its part is in the plan, and what it has of the part is right.
  abbrev pub PhaseHolds : List ChunkRecord → Phase → Type 0
  PhaseHolds rows (reading item) = Fits sha256_hex content job_id item.chunk rows
  PhaseHolds rows (looking item bytes) =
      Fits sha256_hex content job_id item.chunk rows × (bytes ≡ piece_of content item.chunk)
  PhaseHolds rows (reusing item hash c) =
      Fits sha256_hex content job_id item.chunk rows
      × (hash ≡ sha256_hex (piece_of content item.chunk))
  PhaseHolds rows (uploading item hash payload) =
      Fits sha256_hex content job_id item.chunk rows
      × (hash ≡ sha256_hex (piece_of content item.chunk))
  PhaseHolds rows (recording item hash r) =
      Fits sha256_hex content job_id item.chunk rows
      × (hash ≡ sha256_hex (piece_of content item.chunk))
  PhaseHolds rows counting = Unit {0}
  PhaseHolds rows (failing item e stops) = Unit {0}

  abbrev pub AllPhases : List ChunkRecord → List Phase → Type 0
  AllPhases rows [] = Unit {0}
  AllPhases rows (p ∷ ps) = PhaseHolds rows p × AllPhases rows ps

  abbrev pub AllItems : List ChunkRecord → List PartWorkItem → Type 0
  AllItems rows [] = Unit {0}
  AllItems rows (i ∷ is) = Fits sha256_hex content job_id i.chunk rows × AllItems rows is

  abbrev pub PhaseOutcomeHolds : List ChunkRecord → PhaseOutcome → Type 0
  PhaseOutcomeHolds rows (on p) = PhaseHolds rows p
  PhaseOutcomeHolds rows free = Unit {0}
  PhaseOutcomeHolds rows (failed_part e stops) = Unit {0}

  PhaseHolds-SameRanges :
      (rows rows' : List ChunkRecord) (p : Phase)
      → SameRanges rows rows'
      → PhaseHolds rows p
      → PhaseHolds rows' p
  PhaseHolds-SameRanges rows rows' (reading item) same v =
      Fits-SameRanges sha256_hex content job_id item.chunk rows rows' same v
  PhaseHolds-SameRanges rows rows' (looking item bytes) same (v, e) =
      (Fits-SameRanges sha256_hex content job_id item.chunk rows rows' same v, e)
  PhaseHolds-SameRanges rows rows' (reusing item hash c) same (v, e) =
      (Fits-SameRanges sha256_hex content job_id item.chunk rows rows' same v, e)
  PhaseHolds-SameRanges rows rows' (uploading item hash payload) same (v, e) =
      (Fits-SameRanges sha256_hex content job_id item.chunk rows rows' same v, e)
  PhaseHolds-SameRanges rows rows' (recording item hash r) same (v, e) =
      (Fits-SameRanges sha256_hex content job_id item.chunk rows rows' same v, e)
  PhaseHolds-SameRanges rows rows' counting same v = tt
  PhaseHolds-SameRanges rows rows' (failing item e stops) same v = tt

  pub AllPhases-SameRanges :
      (rows rows' : List ChunkRecord) (ps : List Phase)
      → SameRanges rows rows'
      → AllPhases rows ps
      → AllPhases rows' ps
  AllPhases-SameRanges rows rows' [] same v = tt
  AllPhases-SameRanges rows rows' (p ∷ ps) same (own, v) =
      (PhaseHolds-SameRanges rows rows' p same own, AllPhases-SameRanges rows rows' ps same v)

  pub AllItems-SameRanges :
      (rows rows' : List ChunkRecord) (is : List PartWorkItem)
      → SameRanges rows rows'
      → AllItems rows is
      → AllItems rows' is
  AllItems-SameRanges rows rows' [] same v = tt
  AllItems-SameRanges rows rows' (i ∷ is) same (own, v) = (
    Fits-SameRanges sha256_hex content job_id i.chunk rows rows' same own,
    AllItems-SameRanges rows rows' is same v,
  )

  pub AllPhases-without :
      (rows : List ChunkRecord) (before after : List Phase) (p : Phase)
      → AllPhases rows (before ++ (p ∷ after))
      → AllPhases rows (p ∷ (before ++ after))
  AllPhases-without rows [] after p v = v
  AllPhases-without rows (b ∷ before) after p (own, v) =
      let (it, others) = AllPhases-without rows before after p v in (it, (own, others))

-- the local file, which gives what it holds or nothing
abbrev pub IsReadable : List ℕ → ((offset size : ℕ) → ReadResult) → Type 0
IsReadable content read_at =
    (offset size : ℕ)
    → ((read_at offset size).bytes ≡ slice content offset (offset + size))
      ⊎ (((read_at offset size).failed ≡ true) × ((read_at offset size).bytes ≡ []))

written-store :
    (next failed : Phase) (r : Result DbError (Unit {0}) × Store) → (written next failed r).1 ≡ r.1
unfolding written
written-store next failed (ok _, s) = refl
written-store next failed (err e, s) = refl

module _ {W : Type 0} (api : UploadApi W) (aead : Aead) (sha256_hex : List ℕ → Text)
    (read_at : (offset size : ℕ) → ReadResult) (job : JobRecord) (file : FileRecord) (key : List ℕ)
    (content : List ℕ) where
  -- shorthands for this upload
  abbrev pub Holds : List ChunkRecord → PhaseOutcome → Type 0
  Holds = PhaseOutcomeHolds sha256_hex content job.id

  abbrev pub AreTrue : List ChunkRecord → Type 0
  AreTrue = AllRows (HasTrueHash sha256_hex content job.id)

  abbrev pub Kept : List ChunkRecord → List ChunkRecord → Type 0
  Kept = Keeps sha256_hex content job.id

  written-Holds :
      (rows : List ChunkRecord) (item : PartWorkItem) (e : UploadError)
      (r : Result DbError (Unit {0}) × Store)
      → Holds rows (written counting (failing item e false) r).0
  unfolding written
  written-Holds rows item e (ok _, s) = tt
  written-Holds rows item e (err f, s) = tt

  read_phase-Holds :
      (rows : List ChunkRecord) (item : PartWorkItem) (r : ReadResult)
      → Fits sha256_hex content job.id item.chunk rows
      → ((r.bytes ≡ piece_of content item.chunk) ⊎ ((r.failed ≡ true) × (r.bytes ≡ [])))
      → Holds rows (on (read_phase item r))
  unfolding read_phase
  read_phase-Holds rows item r fits got = elim (Bool-cases (r.failed && (length r.bytes == 0))) [
    | inl bad ↦ rw bad tt
    | inr good ↦ elim got [
      | inl all ↦ rw good (fits, all)
      | inr (failure, nothing) ↦ absurd (
          let h : (true && (length {A = ℕ} [] == 0)) ≡ false =
            (let h1 : (true && (length r.bytes == 0)) ≡ false = rw failure at good in
              rw nothing at h1) in
          cc)
    ]
  ]

  sealed_or-Holds :
      (rows : List ChunkRecord) (item : PartWorkItem) (bytes : List ℕ) (random : Option (List ℕ))
      → Fits sha256_hex content job.id item.chunk rows
      → bytes ≡ piece_of content item.chunk
      → Holds rows (on (sealed_or api aead sha256_hex read_at job file key item bytes random))
  unfolding sealed_or
  sealed_or-Holds rows item bytes random fits e =
      elim (encrypt_chunk aead random bytes key (label file.id item.chunk.chunk_index))
        as (λ r. PhaseHolds sha256_hex content job.id rows (elim r [
          | err f ↦ failing item (UploadError.lock_error item.chunk.chunk_index) false
          | ok payload ↦ uploading item (sha256_hex bytes) (wrap_png payload)
        ])) [ err f ↦ tt | ok payload ↦ (fits, ap sha256_hex e) ]

  after_look-Holds :
      (rows : List ChunkRecord) (item : PartWorkItem) (bytes : List ℕ) (random : Option (List ℕ))
      (r : Result DbError (Option ChunkRecord) × Store)
      → Fits sha256_hex content job.id item.chunk rows
      → bytes ≡ piece_of content item.chunk
      → Holds rows (after_look api aead sha256_hex read_at job file key item bytes random r).0
        × ((after_look api aead sha256_hex read_at job file key item bytes random r).1 ≡ r.1)
  unfolding after_look
  after_look-Holds rows item bytes random (err e, s) fits h =
      (sealed_or-Holds rows item bytes random fits h, refl)
  after_look-Holds rows item bytes random (ok none, s) fits h =
      (sealed_or-Holds rows item bytes random fits h, refl)
  after_look-Holds rows item bytes random (ok (some c), s) fits h =
      elim (Bool-cases (bytes_eq c.attachment_url [])) [
        | inl unlinked ↦ rw unlinked (sealed_or-Holds rows item bytes random fits h, refl)
        | inr linked ↦ rw linked ((fits, ap sha256_hex h), refl)
      ]

  upload_phase-Holds :
      (rows : List ChunkRecord) (item : PartWorkItem) (hash : Text) (r : Option UploadResult)
      → Fits sha256_hex content job.id item.chunk rows
      → hash ≡ sha256_hex (piece_of content item.chunk)
      → Holds rows (on (upload_phase item hash r))
  unfolding upload_phase
  upload_phase-Holds rows item hash none fits h = tt
  upload_phase-Holds rows item hash (some r) fits h = (fits, h)

  -- A step of a worker keeps the hashes true, and leaves the worker with what is right.
  pub advance-Kept :
      (random : Option (List ℕ)) (phase : Phase) (w : W) (s : Store)
      → IsReadable content read_at
      → AreTrue s.chunks
      → PhaseHolds sha256_hex content job.id s.chunks phase
      → let r = advance api aead sha256_hex read_at job file key random phase w s in
        Kept s.chunks r.0.1.chunks × Holds r.0.1.chunks r.0.0
  unfolding advance
  advance-Kept random (reading item) w s readable v fits = (
    Keeps-same sha256_hex content job.id s.chunks s.chunks refl v,
    read_phase-Holds s.chunks item (read_at item.chunk.byte_offset item.chunk.chunk_size) fits
        (readable item.chunk.byte_offset item.chunk.chunk_size),
  )
  advance-Kept random (looking item bytes) w s readable v (fits, h) =
      let look : Result DbError (Option ChunkRecord) × Store =
        find_chunk_by_hash (sha256_hex bytes) s in
      let same : look.1.chunks ≡ s.chunks = find_chunk_by_hash-chunks (sha256_hex bytes) s in
      let (holds, left) = after_look-Holds s.chunks item bytes random look fits h in
      let rows : (after_look api aead sha256_hex read_at job file key item bytes random
            look).1.chunks
          ≡ s.chunks =
        ap (λ (t : Store). t.chunks) left ∙ same in
      (Keeps-same sha256_hex content job.id s.chunks _ rows v, rw rows holds)
  advance-Kept random (reusing item hash c) w s readable v (fits, h) =
      let write : Result DbError (Unit {0}) × Store =
        update_chunk_complete item.chunk.id (reused_location item c) hash s in
      let left : (written counting
            (failing item (UploadError.dedup_write_error item.chunk.chunk_index) false) write).1
          ≡ write.1 =
        written-store counting
          (failing item (UploadError.dedup_write_error item.chunk.chunk_index) false) write in
      (
        rw left (
            update_chunk_complete-Keeps sha256_hex content job.id item.chunk
              (reused_location item c) hash s v fits h),
        written-Holds _ item (UploadError.dedup_write_error item.chunk.chunk_index) write,
      )
  advance-Kept random (uploading item hash payload) w s readable v (fits, h) = (
    Keeps-same sha256_hex content job.id s.chunks s.chunks refl v,
    upload_phase-Holds s.chunks item hash
        (api.upload_chunk item.chunk.channel_id item.webhook item.chunk.chunk_index payload w).0
        fits h,
  )
  advance-Kept random (recording item hash r) w s readable v (fits, h) =
      let write : Result DbError (Unit {0}) × Store =
        update_chunk_complete item.chunk.id (item_location item r) hash s in
      let left : (written counting
            (failing item (UploadError.completion_write_error item.chunk.chunk_index) false)
            write).1
          ≡ write.1 =
        written-store counting
          (failing item (UploadError.completion_write_error item.chunk.chunk_index) false) write in
      (
        rw left (
            update_chunk_complete-Keeps sha256_hex content job.id item.chunk (item_location item r)
              hash s v fits h),
        written-Holds _ item (UploadError.completion_write_error item.chunk.chunk_index) write,
      )
  advance-Kept random counting w s readable v h = (
    Keeps-same sha256_hex content job.id s.chunks _ (increment_job_completed_chunks-chunks job.id s)
        v,
    tt,
  )
  advance-Kept random (failing item e stops) w s readable v h =
      (mark_chunk_failed-Keeps sha256_hex content job.id item.chunk.id s v, tt)
