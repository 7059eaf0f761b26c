-- ===== src/Db/Jobs/Reset.antt =====
-- internal/db/db.go: what `ResetIncomplete` leaves.
use discord_free_cloud.Base.{
  ◌≡◌, refl, sym, ap, List, [], ◌∷◌, true, false, Result, ok, err, Text, arith,
}
use discord_free_cloud.Db.{
  ChunkStatus, pending, uploading, completed, failed, ChunkRecord, JobRecord, Store, DbError, exec,
}
use discord_free_cloud.Db.Faults.{exec-ok, later}
use discord_free_cloud.Db.Chunks.{select, update_where, is_completed}
use discord_free_cloud.Db.Jobs.{
  is_uploading, is_active, completed_of, recounted, reset_chunks, reset_jobs, then_jobs,
  reset_incomplete,
}

-- the rows after the first statement
abbrev pub restarted : List ChunkRecord → List ChunkRecord
restarted = update_where (λ c. is_uploading c.status) (λ c. record c { status = pending })

-- no row is still being uploaded
abbrev pub IsIdle : List ChunkRecord → Type 0
IsIdle [] = Unit {0}
IsIdle (c ∷ cs) = (is_uploading c.status ≡ false) × IsIdle cs

-- every active job has counted its completed rows
abbrev pub IsCounted : List ChunkRecord → List JobRecord → Type 0
IsCounted chunks [] = Unit {0}
IsCounted chunks (j ∷ js) =
    (is_active j.status ≡ true → j.completed_chunks ≡ completed_of j.id chunks)
    × IsCounted chunks js

restarted-IsIdle : (cs : List ChunkRecord) → IsIdle (restarted cs)
unfolding update_where is_uploading
restarted-IsIdle [] = tt
restarted-IsIdle (c ∷ cs) = (ground arith, restarted-IsIdle cs)

not_completed : (st : ChunkStatus) → is_uploading st ≡ true → is_completed st ≡ false
unfolding is_uploading is_completed
not_completed pending h = refl
not_completed uploading h = refl
not_completed completed h = cc
not_completed failed h = refl

-- Restarting touches no completed row.
select-restarted :
    (job_id : Text) (cs : List ChunkRecord)
    → completed_of job_id (restarted cs) ≡ completed_of job_id cs
unfolding completed_of select update_where is_uploading is_completed
select-restarted job_id [] = refl
select-restarted job_id (c ∷ cs) =
    ground (arith, not_completed c.status, select-restarted job_id cs)

recounted-IsCounted :
    (chunks : List ChunkRecord) (js : List JobRecord) → IsCounted chunks (recounted chunks js)
unfolding recounted
recounted-IsCounted chunks [] = tt
recounted-IsCounted chunks (j ∷ js) = (ground arith, recounted-IsCounted chunks js)

then_jobs-ok :
    (r : Result DbError (Unit {0}) × Store) (s1 : Store)
    → then_jobs r ≡ (ok tt, s1)
    → (r.0 ≡ ok tt) × (exec reset_jobs r.1 ≡ (ok tt, s1))
unfolding then_jobs
then_jobs-ok (err e, s) s1 h = absurd (cc)
then_jobs-ok (ok tt, s) s1 h = (refl, h)

ok_chunks :
    (s s1 : Store) → let got : Result DbError Store = ok s in got ≡ ok s1 → s.chunks ≡ s1.chunks
ok_chunks s s1 h = let e : s ≡ s1 = cc in ap (λ (t : Store). t.chunks) e

ok_jobs : (s s1 : Store) → let got : Result DbError Store = ok s in got ≡ ok s1 → s.jobs ≡ s1.jobs
ok_jobs s s1 h = let e : s ≡ s1 = cc in ap (λ (t : Store). t.jobs) e

-- After a reset that has succeeded no part is being uploaded, each active job has counted exactly
-- its completed parts, and the count of completed parts of every job is as before.
pub reset_incomplete-IsIdle :
    (s s1 : Store)
    → reset_incomplete s ≡ (ok tt, s1)
    → IsIdle s1.chunks
      × IsCounted s1.chunks s1.jobs
      × ((job_id : Text) → completed_of job_id s1.chunks ≡ completed_of job_id s.chunks)
unfolding reset_incomplete reset_chunks reset_jobs
reset_incomplete-IsIdle s s1 h =
    let (first, second) = then_jobs-ok (exec reset_chunks s) s1 h in
    let mid : Store = (exec reset_chunks s).1 in
    let (left, did) =
      exec-ok reset_chunks s mid (ap (λ (r : Result DbError (Unit {0})). (r, mid)) first) in
    let (left', did') = exec-ok reset_jobs mid s1 second in
    let rows_mid : restarted s.chunks ≡ mid.chunks =
      ok_chunks (record (later s left) { chunks = restarted s.chunks }) mid did in
    let rows : mid.chunks ≡ s1.chunks =
      ok_chunks (record (later mid left') { jobs = recounted mid.chunks mid.jobs }) s1 did' in
    let jobs : recounted mid.chunks mid.jobs ≡ s1.jobs =
      ok_jobs (record (later mid left') { jobs = recounted mid.chunks mid.jobs }) s1 did' in
    rw (sym rows, sym jobs, sym rows_mid)
      (
        restarted-IsIdle s.chunks,
        recounted-IsCounted (restarted s.chunks) mid.jobs,
        λ job_id. select-restarted job_id s.chunks,
      )
