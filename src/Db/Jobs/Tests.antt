-- ===== src/Db/Jobs/Tests.antt =====
-- internal/db/db.go at concrete inputs: jobs and their parts.
use discord_free_cloud.Base.{◌≡◌, ◌≢◌, refl, [], ◌∷◌, ok, Text, codes, bytes_eq}
use discord_free_cloud.Db.{Store, pending, uploading, completed, exec, committed}
use discord_free_cloud.Db.Samples.{row, shelf}
use discord_free_cloud.Db.Jobs.{
  add_rows, create_chunks, has_chunk, has_job, new_row, update_chunk_status, reset_incomplete,
  then_jobs, reset_chunks, reset_jobs, completed_of,
}
use discord_free_cloud.Db.Jobs.Batches.{create_chunks-add_rows, update_chunk_status_fails}
use discord_free_cloud.Db.Jobs.Reset.{reset_incomplete-IsIdle, IsIdle, IsCounted}

create_chunks-add_rows_example :
    create_chunks (row (codes "a") pending ∷ row (codes "b") pending ∷ []) (shelf [])
    ≡ (ok tt, shelf (row (codes "a") pending ∷ row (codes "b") pending ∷ []))
unfolding add_rows has_chunk has_job new_row bytes_eq
create_chunks-add_rows_example =
    create_chunks-add_rows (row (codes "a") pending ∷ row (codes "b") pending ∷ []) (shelf [])
      (shelf (row (codes "a") pending ∷ row (codes "b") pending ∷ [])) refl refl

update_chunk_status_fails_example :
    ((update_chunk_status
        (codes "a")
        completed
        []
        []
        []
        []
        (shelf (row (codes "a") pending ∷ []))).0
      ≢ ok tt)
    × ((update_chunk_status
          (codes "a")
          completed
          []
          []
          []
          []
          (shelf (row (codes "a") pending ∷ []))).1.chunks
        ≡ row (codes "a") pending ∷ [])
update_chunk_status_fails_example =
    update_chunk_status_fails (codes "a") completed [] [] [] []
      (shelf (row (codes "a") pending ∷ []))

-- the catalog after a crash and after its reset
abbrev crashed : Store
crashed = shelf (row (codes "a") uploading ∷ row (codes "b") completed ∷ [])

abbrev healed : Store
healed = (reset_incomplete crashed).1

reset_incomplete-IsIdle_example :
    IsIdle healed.chunks
    × IsCounted healed.chunks healed.jobs
    × ((job_id : Text) → completed_of job_id healed.chunks ≡ completed_of job_id crashed.chunks)
unfolding reset_incomplete then_jobs reset_chunks reset_jobs exec committed
reset_incomplete-IsIdle_example = reset_incomplete-IsIdle crashed healed refl
