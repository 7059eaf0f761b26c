-- ===== src/Sending/Records.antt =====
-- internal/uploader/uploader.go: what the statements that an upload makes do to the rows of its parts.
use discord_free_cloud.Base.{
  ℕ, ◌+◌, ◌≡◌, refl, sym, ap, ◌∙◌, List, [], ◌∷◌, Bool, true, false, some, Result, ok, Text,
  bytes_eq, Bool-cases, inl, inr,
}
use mathlib.Core.Path.{subst}
use discord_free_cloud.Db.{ChunkRecord, Store, DbError, completed, failed, JobStatus}
use discord_free_cloud.Db.Rows.{update_where}
use discord_free_cloud.Db.Faults.{exec-chunks}
use discord_free_cloud.Db.Chunks.{is_completed, Location, update_chunk_complete, mark_chunk_failed}
use discord_free_cloud.Db.Jobs.{update_job_status, increment_job_completed_chunks}
use discord_free_cloud.Download.Range.{piece_of}

abbrev pub AllRows : (ChunkRecord → Type 0) → List ChunkRecord → Type 0
AllRows P [] = Unit {0}
AllRows P (c ∷ cs) = P c × AllRows P cs

-- the same rows, up to what an upload writes
abbrev pub SameRanges : List ChunkRecord → List ChunkRecord → Type 0
SameRanges [] [] = Unit {0}
SameRanges [] (d ∷ ds) = ⊥
SameRanges (c ∷ cs) [] = ⊥
SameRanges (c ∷ cs) (d ∷ ds) =
    (d.id ≡ c.id)
    × (d.byte_offset ≡ c.byte_offset)
    × (d.chunk_size ≡ c.chunk_size)
    × SameRanges cs ds

pub SameRanges-self : (rows : List ChunkRecord) → SameRanges rows rows
SameRanges-self [] = tt
SameRanges-self (c ∷ cs) = (refl, refl, refl, SameRanges-self cs)

SameRanges-update_where :
    (p : ChunkRecord → Bool) (f : ChunkRecord → ChunkRecord) (rows : List ChunkRecord)
    → ((c : ChunkRecord)
        → ((f c).id ≡ c.id)
          × ((f c).byte_offset ≡ c.byte_offset)
          × ((f c).chunk_size ≡ c.chunk_size))
    → SameRanges rows (update_where p f rows)
unfolding update_where
SameRanges-update_where p f [] h = tt
SameRanges-update_where p f (c ∷ cs) h = elim (Bool-cases (p c)) [
  | inl hit ↦ let (a, b, d) = h c in rw hit (a, b, d, SameRanges-update_where p f cs h)
  | inr no_match ↦ rw no_match (refl, refl, refl, SameRanges-update_where p f cs h)
]

AllRows-update_where :
    (P : ChunkRecord → Type 0) (p : ChunkRecord → Bool) (f : ChunkRecord → ChunkRecord)
    (rows : List ChunkRecord)
    → AllRows P rows
    → AllRows (λ c. p c ≡ true → P (f c)) rows
    → AllRows P (update_where p f rows)
unfolding update_where
AllRows-update_where P p f [] v h = tt
AllRows-update_where P p f (c ∷ cs) (own, v) (new, h) = elim (Bool-cases (p c)) [
  | inl hit ↦ rw hit (new hit, AllRows-update_where P p f cs v h)
  | inr no_match ↦ rw no_match (own, AllRows-update_where P p f cs v h)
]

AllRows-map :
    (P Q : ChunkRecord → Type 0) (rows : List ChunkRecord)
    → ((c : ChunkRecord) → P c → Q c)
    → AllRows P rows
    → AllRows Q rows
AllRows-map P Q [] h v = tt
AllRows-map P Q (c ∷ cs) h (own, v) = (h c own, AllRows-map P Q cs h v)

-- the rows that `UpdateChunkComplete` and `MarkChunkFailed` leave
abbrev has_row_id : Text → ChunkRecord → Bool
has_row_id id c = bytes_eq c.id id

abbrev completed_row : Location → Text → ℕ → ChunkRecord → ChunkRecord
completed_row at hash now c = record c {
  status = completed;
  channel_id = at.channel;
  message_id = at.message;
  attachment_id = at.attachment;
  attachment_url = at.url;
  completed_at = some now;
  sha256 = hash;
  guild_id = at.guild;
}

abbrev failed_row : ChunkRecord → ChunkRecord
failed_row c = record c { status = failed; retry_count = c.retry_count + 1 }

-- Statements on the other tables leave the rows as they are.
pub increment_job_completed_chunks-chunks :
    (id : Text) (s : Store) → (increment_job_completed_chunks id s).1.chunks ≡ s.chunks
unfolding increment_job_completed_chunks
increment_job_completed_chunks-chunks id s =
    exec-chunks (λ rows. rows ≡ s.chunks) _ s refl
      (λ t t1 same h. (let did : t.chunks ≡ t1.chunks = cc in sym did ∙ same))

pub update_job_status-chunks :
    (id : Text) (status : JobStatus) (s : Store)
    → (update_job_status id status s).1.chunks ≡ s.chunks
unfolding update_job_status
update_job_status-chunks id status s =
    exec-chunks (λ rows. rows ≡ s.chunks) _ s refl
      (λ t t1 same h. (let did : t.chunks ≡ t1.chunks = cc in sym did ∙ same))

module _ (sha256_hex : List ℕ → Text) (content : List ℕ) (job_id : Text) where
  -- a row of the job that is completed records the hash of its piece of the content
  abbrev pub HasTrueHash : ChunkRecord → Type 0
  HasTrueHash c =
      is_completed c.status ≡ true
      → bytes_eq c.job_id job_id ≡ true
      → c.sha256 ≡ sha256_hex (piece_of content c)

  -- every row with the id of a part is of the same piece
  abbrev pub Fits : ChunkRecord → List ChunkRecord → Type 0
  Fits part rows =
      AllRows (λ c. bytes_eq c.id part.id ≡ true → piece_of content c ≡ piece_of content part) rows

  pub Fits-SameRanges :
      (part : ChunkRecord) (rows rows' : List ChunkRecord)
      → SameRanges rows rows'
      → Fits part rows
      → Fits part rows'
  Fits-SameRanges part [] [] same v = tt
  Fits-SameRanges part [] (d ∷ ds) same v = absurd same
  Fits-SameRanges part (c ∷ cs) [] same v = absurd same
  Fits-SameRanges part (c ∷ cs) (d ∷ ds) (i, o, z, same) (own, v) = (
    λ h. (let h' : bytes_eq c.id part.id ≡ true = rw i at h in rw (o, z) (own h')),
    Fits-SameRanges part cs ds same v,
  )

  -- What a statement may do to the rows: their ranges stay, and so does the truth of their hashes.
  abbrev pub Keeps : List ChunkRecord → List ChunkRecord → Type 0
  Keeps rows rows' = SameRanges rows rows' × AllRows HasTrueHash rows'

  pub Keeps-same :
      (rows rows' : List ChunkRecord) → rows' ≡ rows → AllRows HasTrueHash rows → Keeps rows rows'
  Keeps-same rows rows' e v = rw e (SameRanges-self rows, v)

  update_where-Keeps :
      (p : ChunkRecord → Bool) (f : ChunkRecord → ChunkRecord) (rows : List ChunkRecord)
      → ((c : ChunkRecord)
          → ((f c).id ≡ c.id)
            × ((f c).byte_offset ≡ c.byte_offset)
            × ((f c).chunk_size ≡ c.chunk_size))
      → AllRows HasTrueHash rows
      → AllRows (λ c. p c ≡ true → HasTrueHash (f c)) rows
      → Keeps rows (update_where p f rows)
  update_where-Keeps p f rows h v new =
      (SameRanges-update_where p f rows h, AllRows-update_where HasTrueHash p f rows v new)

  -- the rows behind an update that has been done
  update_done :
      (p : ChunkRecord → Bool) (f : ChunkRecord → ChunkRecord) (rows : List ChunkRecord)
      (t t1 : Store)
      → Keeps rows (update_where p f rows)
      → t.chunks ≡ rows
      → ◌≡◌ {A = Result DbError Store}
          (ok (record t { chunks = update_where p f t.chunks }))
          (ok t1)
      → Keeps rows t1.chunks
  update_done p f rows t t1 v same h =
      let did : record t { chunks = update_where p f t.chunks } ≡ t1 = cc in
      subst (λ (u : Store). Keeps rows u.chunks) did
        (subst (λ (cs : List ChunkRecord). Keeps rows (update_where p f cs)) (sym same) v)

  pub update_chunk_complete-Keeps :
      (part : ChunkRecord) (at : Location) (hash : Text) (s : Store)
      → AllRows HasTrueHash s.chunks
      → Fits part s.chunks
      → hash ≡ sha256_hex (piece_of content part)
      → Keeps s.chunks (update_chunk_complete part.id at hash s).1.chunks
  unfolding update_chunk_complete
  update_chunk_complete-Keeps part at hash s v fits e =
      exec-chunks (Keeps s.chunks) _ s (Keeps-same s.chunks s.chunks refl v) (λ t t1 same h.
        update_done (has_row_id part.id) (completed_row at hash t.now) s.chunks t t1
          (update_where-Keeps (has_row_id part.id) (completed_row at hash t.now) s.chunks
            (λ c. (refl, refl, refl)) v
            (AllRows-map
              (λ c. bytes_eq c.id part.id ≡ true → piece_of content c ≡ piece_of content part)
              (λ c. has_row_id part.id c ≡ true → HasTrueHash (completed_row at hash t.now c))
              s.chunks (λ c own hit q r. e ∙ ap sha256_hex (sym (own hit))) fits))
          same h)

  pub mark_chunk_failed-Keeps :
      (id : Text) (s : Store)
      → AllRows HasTrueHash s.chunks
      → Keeps s.chunks (mark_chunk_failed id s).1.chunks
  unfolding mark_chunk_failed is_completed
  mark_chunk_failed-Keeps id s v =
      exec-chunks (Keeps s.chunks) _ s (Keeps-same s.chunks s.chunks refl v) (λ t t1 same h.
        update_done (has_row_id id) failed_row s.chunks t t1
          (update_where-Keeps (has_row_id id) failed_row s.chunks (λ c. (refl, refl, refl)) v
            (AllRows-map HasTrueHash (λ c. has_row_id id c ≡ true → HasTrueHash (failed_row c))
              s.chunks (λ c own hit q r. absurd (let no_end : false ≡ true = q in cc)) v))
          same h)
