-- ===== src/Db/Jobs.antt =====
-- internal/db/db.go: the statements that create jobs and the rows of their parts, and that put a
-- catalog right after a crash. A row of `chunks` refers to a row of `jobs`.
pub mod Batches
pub mod Reset
mod Tests
use discord_free_cloud.Base.{
  ℕ, zero, suc, ◌+◌, ◌*◌, List, [], ◌∷◌, ◌++◌, Bool, true, false, ◌&&◌, ◌||◌, not, Option, some,
  none, Result, ok, err, length, take, drop, ltb, ◌==◌, if◌then◌else◌, Text, bytes_eq,
}
use discord_free_cloud.Db.{
  ChunkStatus, pending, uploading, completed, failed, JobStatus, active, paused, done, broken,
  ChunkRecord, JobRecord, Store, DbError, bad_statement, constraint_violated, exec,
}
use discord_free_cloud.Db.Chunks.{
  is_completed, select, update_where, Location, update_chunk_with_guild,
}

pub has_job : Text → List JobRecord → Bool
has_job id [] = false
has_job id (j ∷ js) = bytes_eq j.id id || has_job id js

pub has_chunk : Text → List ChunkRecord → Bool
has_chunk id [] = false
has_chunk id (c ∷ cs) = bytes_eq c.id id || has_chunk id cs

pub create_job : JobRecord → Store → Result DbError (Unit {0}) × Store
unfolding has_job
create_job j = exec λ s.
    if has_job j.id s.jobs
    then err constraint_violated
    else ok (record s { jobs = s.jobs ++ (j ∷ []) })

abbrev pub cols : ℕ
cols = 15

abbrev pub max_rows : ℕ
max_rows = 4000

-- the limit of PostgreSQL on the parameters of a statement
abbrev pub max_parameters : ℕ
max_parameters = 65535

-- `completed_at` is not among the columns.
pub new_row : ChunkRecord → ChunkRecord
new_row c = record c { completed_at = none }

-- The rows of one statement: an id that is taken or a job that is missing refuses them all.
pub add_rows : List ChunkRecord → Store → Result DbError Store
unfolding has_chunk has_job new_row
add_rows [] s = ok s
add_rows (c ∷ cs) s =
    let rest = add_rows cs (record s { chunks = s.chunks ++ (new_row c ∷ []) }) in
    if has_chunk c.id s.chunks || not (has_job c.job_id s.jobs)
    then err constraint_violated
    else rest

pub create_chunks_batch : List ChunkRecord → Store → Result DbError (Unit {0}) × Store
unfolding add_rows
create_chunks_batch cs = exec λ s.
    if length cs == 0 || ltb max_parameters (length cs * cols)
    then err bad_statement
    else add_rows cs s

after_batch :
    Result DbError (Unit {0}) × Store
    → (Store → Result DbError (Unit {0}) × Store)
    → Result DbError (Unit {0}) × Store
after_batch (err e, s) next = (err e, s)
after_batch (ok _, s) next = next s

-- The loop over the batches. Each takes a row, so that the number of rows is fuel enough.
pub create_batches : ℕ → List ChunkRecord → Store → Result DbError (Unit {0}) × Store
unfolding create_chunks_batch after_batch
create_batches zero cs s = (ok tt, s)
create_batches (suc n) cs s = elim (length cs == 0) [
  | true ↦ (ok tt, s)
  | false ↦
      after_batch (create_chunks_batch (take max_rows cs) s)
        (λ s1. create_batches n (drop max_rows cs) s1)
]

pub create_chunks : List ChunkRecord → Store → Result DbError (Unit {0}) × Store
unfolding create_batches
create_chunks cs s = create_batches (length cs) cs s

-- `UpdateChunkStatus` names no guild.
pub update_chunk_status :
    Text
    → ChunkStatus
    → (channel message attachment url : Text) → Store
    → Result DbError (Unit {0}) × Store
unfolding update_chunk_with_guild
update_chunk_status chunk_id status channel message attachment url =
    update_chunk_with_guild chunk_id status (record {
      guild = [];
      channel = channel;
      message = message;
      attachment = attachment;
      url = url;
    })

pub is_uploading : ChunkStatus → Bool
is_uploading uploading = true
is_uploading _ = false

pub is_active : JobStatus → Bool
is_active active = true
is_active _ = false

unfoldable pub completed_of : Text → List ChunkRecord → ℕ
unfolding select is_completed
completed_of job_id chunks =
    length (select (λ c. bytes_eq c.job_id job_id && is_completed c.status) chunks)

pub recounted : List ChunkRecord → List JobRecord → List JobRecord
unfolding is_active completed_of
recounted chunks [] = []
recounted chunks (j ∷ js) =
    (if is_active j.status then record j { completed_chunks = completed_of j.id chunks } else j)
    ∷ recounted chunks js

reset_chunks : Store → Result DbError Store
unfolding update_where is_uploading
reset_chunks s = ok (record s {
  chunks = update_where (λ c. is_uploading c.status) (λ c. record c { status = pending }) s.chunks;
})

reset_jobs : Store → Result DbError Store
unfolding recounted
reset_jobs s = ok (record s { jobs = recounted s.chunks s.jobs })

then_jobs : Result DbError (Unit {0}) × Store → Result DbError (Unit {0}) × Store
unfolding reset_jobs
then_jobs (err e, s) = (err e, s)
then_jobs (ok _, s) = exec reset_jobs s

pub reset_incomplete : Store → Result DbError (Unit {0}) × Store
unfolding reset_chunks then_jobs
reset_incomplete s = then_jobs (exec reset_chunks s)

-- UPDATE jobs SET ... WHERE id = ...
update_job : Text → (JobRecord → JobRecord) → List JobRecord → List JobRecord
update_job id f [] = []
update_job id f (j ∷ js) = (if bytes_eq j.id id then f j else j) ∷ update_job id f js

-- whether a status ends a job
is_final : JobStatus → Bool
is_final done = true
is_final broken = true
is_final _ = false

unfoldable pub update_job_status : Text → JobStatus → Store → Result DbError (Unit {0}) × Store
unfolding update_job is_final
update_job_status id status = exec λ s. ok (record s {
  jobs =
      update_job id
        (λ j. record j {
          status = status;
          completed_at = if is_final status then some s.now else none;
        })
        s.jobs;
})

unfoldable pub increment_job_completed_chunks : Text → Store → Result DbError (Unit {0}) × Store
unfolding update_job
increment_job_completed_chunks id = exec λ s. ok (record s {
  jobs = update_job id (λ j. record j { completed_chunks = j.completed_chunks + 1 }) s.jobs;
})
