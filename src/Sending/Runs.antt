-- ===== src/Sending/Runs.antt =====
-- internal/uploader/uploader.go: what holds at every point of an upload.
use discord_free_cloud.Base.{
  ℕ, ◌≤◌, ◌≡◌, ◌≢◌, ◌⊎◌, inl, inr, refl, sym, ◌∙◌, List, [], ◌∷◌, ◌++◌, true, false, ◌&&◌, ◌||◌,
  not, Option, some, none, ok, ltb, ◌==◌, length, arith, Text, bytes_eq, Bool-cases,
}
use discord_free_cloud.Aead.{Aead}
use discord_free_cloud.Db.{FileRecord, JobRecord, Store, done, broken}
use discord_free_cloud.Db.Faults.{query-chunks, query-answer}
use discord_free_cloud.Db.Files.{upsert_file, upsert_file-chunks}
use discord_free_cloud.Db.Rows.{select}
use discord_free_cloud.Db.Chunks.{is_completed, count_completed_chunks_for_job}
use discord_free_cloud.Db.Jobs.{completed_of}
use discord_free_cloud.Sending.{
  PartWorkItem, UploadApi, ReadResult, Phase, PhaseOutcome, on, free, failed_part, Sending, resumed,
  worked, count_or_zero, hashed_file, close_upload, Step, cancel, take, leave, quit, work, close,
  Reach, begin, begun,
}
use discord_free_cloud.Sending.Records.{update_job_status-chunks}
use discord_free_cloud.Sending.Truth.{
  AllPhases, AllItems, AllPhases-SameRanges, AllItems-SameRanges, AllPhases-without, IsReadable,
  Holds, AreTrue, advance-Kept,
}

module _ {W : Type 0} (api : UploadApi W) (aead : Aead) (sha256_hex : List ℕ → Text)
    (read_at : (offset size : ℕ) → ReadResult) (job : JobRecord) (file : FileRecord) (key : List ℕ)
    (content : List ℕ) where
  -- the state of this upload
  abbrev State : Type 0
  State = Sending api aead sha256_hex read_at job file key

  count-le :
      (s : Store)
      → count_or_zero api aead sha256_hex read_at job file key
          (count_completed_chunks_for_job job.id s).0
        ≤ completed_of job.id s.chunks
  unfolding count_or_zero count_completed_chunks_for_job completed_of
  count-le s =
      elim (query-answer
        (λ t.
          ok (length (select (λ c. bytes_eq c.job_id job.id && is_completed c.status) t.chunks)))
        s) [ inl down ↦ rw down (omega arith) | inr (left, answer) ↦ rw answer (omega arith) ]

  -- the workers are right, and if the upload has been reported as complete, it is
  abbrev pub IsReported : State → Type 0
  IsReported s = (s.ended ≢ some true) ⊎ (job.total_chunks ≤ completed_of job.id s.store.chunks)

  abbrev IsTruthful : State → Type 0
  IsTruthful s =
      AreTrue api aead sha256_hex read_at job file key content s.store.chunks
      × AllItems sha256_hex content job.id s.store.chunks s.queue
      × AllPhases sha256_hex content job.id s.store.chunks s.busy

  -- an upload that has ended has no worker left
  abbrev IsClosed : State → Type 0
  IsClosed s = (s.ended ≡ none) ⊎ ((s.idle ≡ 0) × (s.busy ≡ []) × IsReported s)

  resumed-IsTruthful :
      (o : PhaseOutcome) (others : List Phase) (s : State)
      → AreTrue api aead sha256_hex read_at job file key content s.store.chunks
      → AllItems sha256_hex content job.id s.store.chunks s.queue
      → AllPhases sha256_hex content job.id s.store.chunks others
      → Holds api aead sha256_hex read_at job file key content s.store.chunks o
      → IsTruthful (resumed api aead sha256_hex read_at job file key o others s)
  unfolding resumed
  resumed-IsTruthful (on p) others s v items phases h = (v, items, (h, phases))
  resumed-IsTruthful free others s v items phases h = (v, items, phases)
  resumed-IsTruthful (failed_part e true) others s v items phases h = (v, items, phases)
  resumed-IsTruthful (failed_part e false) others s v items phases h = (v, items, phases)

  worked-IsTruthful :
      (before after : List Phase) (phase : Phase) (random : Option (List ℕ)) (s : State)
      → IsReadable content read_at
      → s.busy ≡ before ++ (phase ∷ after)
      → IsTruthful s
      → IsTruthful
          (worked api aead sha256_hex read_at job file key random phase (before ++ after) s)
  unfolding worked
  worked-IsTruthful before after phase random s readable e (v, items, phases) =
      let (own, others) =
        AllPhases-without sha256_hex content job.id s.store.chunks before after phase
          (rw e at phases) in
      let (kept, holds) =
        advance-Kept api aead sha256_hex read_at job file key content random phase s.net s.store
          readable v own in
      let (same, v') = kept in
      resumed-IsTruthful _ (before ++ after) _ v'
        (AllItems-SameRanges sha256_hex content job.id s.store.chunks _ s.queue same items)
        (AllPhases-SameRanges sha256_hex content job.id s.store.chunks _ (before ++ after) same
          others)
        holds

  -- a worker that is at work shows that the upload has not ended
  lasting :
      (s : State) (before after : List Phase) (phase : Phase)
      → s.busy ≡ before ++ (phase ∷ after)
      → IsClosed s
      → s.ended ≡ none
  lasting s before after phase e (inl none_yet) = none_yet
  lasting s [] after phase e (inr (idle, busy, report)) =
      absurd (let no_end : [] ≡ phase ∷ after = sym busy ∙ e in cc)
  lasting s (b ∷ before) after phase e (inr (idle, busy, report)) =
      absurd (let no_end : [] ≡ b ∷ (before ++ (phase ∷ after)) = sym busy ∙ e in cc)

  resumed-ended :
      (o : PhaseOutcome) (others : List Phase) (s : State)
      → (resumed api aead sha256_hex read_at job file key o others s).ended ≡ s.ended
  unfolding resumed
  resumed-ended (on p) others s = refl
  resumed-ended free others s = refl
  resumed-ended (failed_part e true) others s = refl
  resumed-ended (failed_part e false) others s = refl

  closed-chunks :
      (hash : Option Text) (s : State)
      → (close_upload api aead sha256_hex read_at job file key hash s).store.chunks ≡ s.store.chunks
  unfolding close_upload count_completed_chunks_for_job
  closed-chunks hash s =
      let counted : (count_completed_chunks_for_job job.id s.store).1.chunks ≡ s.store.chunks =
        query-chunks _ s.store in
      let count : Store = (count_completed_chunks_for_job job.id s.store).1 in
      let row : FileRecord = hashed_file api aead sha256_hex read_at job file key hash in
      elim (Bool-cases (
        not (length s.errors == 0)
        || ltb
            (count_or_zero api aead sha256_hex read_at job file key
              (count_completed_chunks_for_job job.id s.store).0)
            job.total_chunks)) [
              | inl bad ↦ rw bad (update_job_status-chunks job.id broken count ∙ counted)
              | inr good ↦ rw good (
                  update_job_status-chunks job.id done (upsert_file row count).1
                  ∙ upsert_file-chunks row count
                  ∙ counted)
            ]

  closed-IsReported :
      (hash : Option Text) (s : State)
      → IsReported (close_upload api aead sha256_hex read_at job file key hash s)
  closed-IsReported hash s =
      elim (Bool-cases (
        not (length s.errors == 0)
        || ltb
            (count_or_zero api aead sha256_hex read_at job file key
              (count_completed_chunks_for_job job.id s.store).0)
            job.total_chunks)) [
              | inl bad ↦ inl (unfold close_upload in rw bad (λ e. cc))
              | inr good ↦
                  let enough : job.total_chunks
                      ≤ count_or_zero api aead sha256_hex read_at job file key
                          (count_completed_chunks_for_job job.id s.store).0 =
                    ground (arith, good) in
                  inr (rw (closed-chunks hash s) (omega (arith, enough, count-le s.store)))
            ]

  closed_workers :
      (hash : Option Text) (s : State)
      → s.idle ≡ 0
      → s.busy ≡ []
      → ((close_upload api aead sha256_hex read_at job file key hash s).idle ≡ 0)
        × ((close_upload api aead sha256_hex read_at job file key hash s).busy ≡ [])
        × ((close_upload api aead sha256_hex read_at job file key hash s).queue ≡ s.queue)
  unfolding close_upload
  closed_workers hash s i b =
      elim (Bool-cases (
        not (length s.errors == 0)
        || ltb
            (count_or_zero api aead sha256_hex read_at job file key
              (count_completed_chunks_for_job job.id s.store).0)
            job.total_chunks)) [ inl bad ↦ rw bad (i, b, refl) | inr good ↦ rw good (i, b, refl) ]

  Step-IsTruthful :
      {s t : State}
      → Step api aead sha256_hex read_at job file key s t
      → IsReadable content read_at
      → IsTruthful s × IsClosed s
      → IsTruthful t × IsClosed t
  Step-IsTruthful cancel readable (v, c) = (v, c)
  Step-IsTruthful {s} (take item items n e f) readable ((v, queued, phases), c) =
      let (own, others) =
        (let w : AllItems sha256_hex content job.id s.store.chunks (item ∷ items) =
            rw e at queued in
          w) in
      (
        (v, others, (own, phases)),
        elim c [
          | inl none_yet ↦ inl none_yet
          | inr (idle, busy, report) ↦ absurd (omega (arith, idle, f))
        ],
      )
  Step-IsTruthful (leave n e f) readable (v, c) = (
    v,
    elim c [
      | inl none_yet ↦ inl none_yet
      | inr (idle, busy, report) ↦ absurd (omega (arith, idle, f))
    ],
  )
  Step-IsTruthful (quit n e f) readable (v, c) = (
    v,
    elim c [
      | inl none_yet ↦ inl none_yet
      | inr (idle, busy, report) ↦ absurd (omega (arith, idle, f))
    ],
  )
  Step-IsTruthful {s} (work before after phase random e) readable (v, c) = (
    worked-IsTruthful before after phase random s readable e v,
    inl (unfold worked in resumed-ended _ (before ++ after) _ ∙ lasting s before after phase e c),
  )
  Step-IsTruthful {s} (close hash e f g) readable ((v, queued, phases), c) =
      let (i, b, q) = closed_workers hash s f g in
      let rows : (close_upload api aead sha256_hex read_at job file key hash s).store.chunks
          ≡ s.store.chunks =
        closed-chunks hash s in
      ((rw rows v, rw (rows, q) queued, rw (rows, b) tt), inr (i, b, closed-IsReported hash s))

  Reach-IsTruthful :
      {s t : State}
      → Reach api aead sha256_hex read_at job file key s t
      → IsReadable content read_at
      → IsTruthful s × IsClosed s
      → IsTruthful t × IsClosed t
  Reach-IsTruthful begin readable v = v
  Reach-IsTruthful (Reach.later r step) readable v =
      Step-IsTruthful step readable (Reach-IsTruthful r readable v)

  closed-report : (t : State) → IsClosed t → IsReported t
  closed-report t (inl none_yet) =
      inl (λ e. (let no_end : none ≡ some true = sym none_yet ∙ e in cc))
  closed-report t (inr (idle, busy, report)) = report

  -- At every point of an upload, whatever the order in which its workers run, whichever calls of the
  -- catalog and of Discord fail, and whether or not it is cancelled: each completed row of the job
  -- records the hash of its piece of the local file, and the upload is not reported as complete unless
  -- the catalog holds as many completed rows of the job as the job has parts. This starts from rows that
  -- meet the first condition and are of the pieces of the parts whose ids they have, and reading the
  -- local file gives its bytes or fails with none.
  pub Reach-AreTrue :
      (workers : ℕ) (items : List PartWorkItem) (w : W) (s : Store) (t : State)
      → IsReadable content read_at
      → AreTrue api aead sha256_hex read_at job file key content s.chunks
      → AllItems sha256_hex content job.id s.chunks items
      → Reach api aead sha256_hex read_at job file key
          (begun api aead sha256_hex read_at job file key workers items w s)
          t
      → AreTrue api aead sha256_hex read_at job file key content t.store.chunks × IsReported t
  unfolding begun
  Reach-AreTrue workers items w s t readable v fits r =
      let (truth, closed) = Reach-IsTruthful r readable ((v, fits, tt), inl refl) in
      (truth.0, closed-report t closed)
