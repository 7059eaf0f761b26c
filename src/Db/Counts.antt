-- ===== src/Db/Counts.antt =====
-- internal/db/db.go: sums and counts over the tables, and other reads of rows.
use discord_free_cloud.Base.{
  ℕ, ◌+◌, List, [], ◌∷◌, ◌++◌, Bool, ◌&&◌, not, Option, some, none, Result, ok, err, leb,
  if◌then◌else◌, length, Text, bytes_eq,
}
use discord_free_cloud.Db.{
  FileRecord, JobRecord, ChunkRecord, Store, DbError, no_rows, constraint_violated, query, exec,
}
use discord_free_cloud.Db.Rows.{select, update_where, order_by, first_row, delete_where}
use discord_free_cloud.Db.Chunks.{is_completed, index_asc}
use discord_free_cloud.Db.Jobs.{is_active, has_job, has_chunk, new_row}

-- an error of the query counts as zero
or_zero : Result DbError ℕ → ℕ
or_zero (ok n) = n
or_zero (err e) = 0

file_bytes : List FileRecord → ℕ
file_bytes [] = 0
file_bytes (f ∷ fs) = let rest = file_bytes fs in if f.is_dir then rest else f.size + rest

chunk_bytes : List ChunkRecord → ℕ
chunk_bytes [] = 0
chunk_bytes (c ∷ cs) = c.chunk_size + chunk_bytes cs

unfoldable pub get_total_storage_bytes : Store → ℕ × Store
unfolding or_zero file_bytes
get_total_storage_bytes s = let r = query (λ t. ok (file_bytes t.files)) s in (or_zero r.0, r.1)

unfoldable pub guild_storage_bytes : Text → Store → ℕ × Store
unfolding or_zero chunk_bytes select is_completed get_total_storage_bytes
guild_storage_bytes guild_id s =
    if bytes_eq guild_id []
    then get_total_storage_bytes s
    else (let r =
          query
            (λ t. ok (
              chunk_bytes
                (select (λ c. bytes_eq c.guild_id guild_id && is_completed c.status) t.chunks)))
            s in
        (or_zero r.0, r.1))

pub get_file_count : Store → ℕ × Store
unfolding or_zero select
get_file_count s =
    let r = query (λ t. ok (length (select (λ f. not f.is_dir) t.files))) s in (or_zero r.0, r.1)

after_delete : Text → Result DbError (Unit {0}) × Store → Result DbError (Unit {0}) × Store
unfolding delete_where
after_delete id (err e, s) = (err e, s)
after_delete id (ok _, s) = (
  ok tt,
  (exec (λ t. ok (record t { chunks = delete_where (λ c. bytes_eq c.file_id id) t.chunks })) s).1,
)

-- Two statements: the error of the second is discarded.
pub delete_file : Text → Store → Result DbError (Unit {0}) × Store
unfolding after_delete delete_where
delete_file id s =
    after_delete id
      (exec (λ t. ok (record t { files = delete_where (λ f. bytes_eq f.id id) t.files })) s)

row_or_error : Option JobRecord → Result DbError JobRecord
row_or_error none = err no_rows
row_or_error (some j) = ok j

pub get_job : Text → Store → Result DbError JobRecord × Store
unfolding row_or_error first_row
get_job id = query λ s. row_or_error (first_row (λ j. bytes_eq j.id id) s.jobs)

unfoldable pub newest_job : JobRecord → JobRecord → Bool
newest_job j k = leb k.created_at j.created_at

unfoldable pub get_active_jobs : Store → Result DbError (List JobRecord) × Store
unfolding select order_by newest_job
get_active_jobs = query λ s. ok (order_by newest_job (select (λ j. is_active j.status) s.jobs))

pub create_chunk : ChunkRecord → Store → Result DbError (Unit {0}) × Store
create_chunk c = exec λ s.
    if has_chunk c.id s.chunks
    then err constraint_violated
    else if not (has_job c.job_id s.jobs)
    then err constraint_violated
    else ok (record s { chunks = s.chunks ++ (new_row c ∷ []) })

pub get_chunks_for_job : Text → Store → Result DbError (List ChunkRecord) × Store
unfolding select order_by index_asc
get_chunks_for_job job_id =
    query λ s. ok (order_by index_asc (select (λ c. bytes_eq c.job_id job_id) s.chunks))

unfoldable pub get_all_chunks_for_file : Text → Store → Result DbError (List ChunkRecord) × Store
unfolding select order_by index_asc
get_all_chunks_for_file file_id =
    query λ s. ok (order_by index_asc (select (λ c. bytes_eq c.file_id file_id) s.chunks))

pub get_pending_chunks : Text → Store → Result DbError (List ChunkRecord) × Store
unfolding select order_by index_asc is_completed
get_pending_chunks job_id = query λ s. ok (
    order_by index_asc
      (select (λ c. bytes_eq c.job_id job_id && not (is_completed c.status)) s.chunks))

pub count_completed_chunks_for_file : Text → Store → Result DbError ℕ × Store
unfolding select is_completed
count_completed_chunks_for_file file_id =
    query
      λ s. ok (length (select (λ c. bytes_eq c.file_id file_id && is_completed c.status) s.chunks))

pub update_chunk_hash : Text → Text → Store → Result DbError (Unit {0}) × Store
unfolding update_where
update_chunk_hash id hash = exec λ s. ok (record s {
  chunks = update_where (λ c. bytes_eq c.id id) (λ c. record c { sha256 = hash }) s.chunks;
})
