-- ===== src/Verify.antt =====
-- internal/downloader/verify.go: `VerifyFile` and `completedChunksForFile`. SHA-256 in hex is a
-- parameter. The workers share the parts out; the order in which the parts are fetched is a parameter,
-- and so is whether the context has been cancelled by the end.
pub mod Sound
mod Tests
use discord_free_cloud.Base.{
  ℕ, zero, suc, ◌+◌, List, [], ◌∷◌, ◌++◌, Bool, true, false, ◌&&◌, ◌||◌, not, Option, some, none,
  Result, ok, err, ◌==◌, if◌then◌else◌, length, get_elem?, set, map, Text, bytes_eq,
}
use discord_free_cloud.Aead.{Aead, key_length}
use discord_free_cloud.Db.{FileRecord, ChunkRecord, Store, DbError}
use discord_free_cloud.Db.Files.{get_file}
use discord_free_cloud.Db.Chunks.{get_chunks_for_file, is_completed, index_asc}
use discord_free_cloud.Db.Rows.{select, order_by}
use discord_free_cloud.Fetch.{DiscordApi, Engine, FetchError, fetch_chunk}
use discord_free_cloud.Download.{scan_rows}

pub data VerifyError : Type 0 where
  locked no_file is_folder no_parts cancelled : VerifyError
  not_listed : DbError → VerifyError
  missing : ℕ → VerifyError

-- The error texts are left out: a verdict that is not `ok` has one.
pub record ChunkVerdict : Type 0 where
  pub index : ℕ
  pub expected : Text
  pub actual : Text
  pub size : ℕ
  pub is_ok : Bool

pub record VerificationResult : Type 0 where
  pub all_ok : Bool
  pub file_id : Text
  pub name : Text
  pub expected_size : ℕ
  pub actual_size : ℕ
  pub expected_hash : Text
  pub actual_hash : Text
  pub verdicts : List ChunkVerdict

-- the first part that does not stand at its index
pub first_gap : ℕ → List ChunkRecord → Option ℕ
first_gap i [] = none
first_gap i (c ∷ cs) =
    let rest = first_gap (suc i) cs in if c.chunk_index == i then rest else some i

-- the first completed row of each index, sorted
pub listed : List ChunkRecord → List ChunkRecord
unfolding is_completed select order_by index_asc
listed rows = order_by index_asc (scan_rows [] 0 (select (λ c. is_completed c.status) rows)).0

without_gap : List ChunkRecord → Option ℕ → Result VerifyError (List ChunkRecord)
without_gap parts none = ok parts
without_gap parts (some i) = err (missing i)

checked_rows :
    Result DbError (List ChunkRecord) × Store → Result VerifyError (List ChunkRecord) × Store
unfolding without_gap first_gap listed
checked_rows (err e, s) = (err (not_listed e), s)
checked_rows (ok rows, s) = (without_gap (listed rows) (first_gap 0 (listed rows)), s)

pub completed_chunks_for_file : Text → Store → Result VerifyError (List ChunkRecord) × Store
unfolding checked_rows
completed_chunks_for_file file_id s = checked_rows (get_chunks_for_file file_id s)

-- the zero value of a verdict, which a part keeps that no worker has come to
abbrev pub no_verdict : ChunkVerdict
no_verdict = record { index = 0; expected = []; actual = []; size = 0; is_ok = false }

module _ (sha256_hex : List ℕ → Text) where
  -- what a worker leaves of a part: the verdict, and the bytes or nothing
  pub judged : ChunkRecord → Result FetchError (List ℕ) → ChunkVerdict × List ℕ
  judged c (err e) = (
    record {
      index = c.chunk_index;
      expected = c.sha256;
      actual = [];
      size = c.chunk_size;
      is_ok = false;
    },
    [],
  )
  judged c (ok bytes) = (
    record {
      index = c.chunk_index;
      expected = c.sha256;
      actual = sha256_hex bytes;
      size = c.chunk_size;
      is_ok = bytes_eq c.sha256 [] || bytes_eq (sha256_hex bytes) c.sha256;
    },
    bytes,
  )

  -- The loop over the verdicts: whether all are good, the bytes that go into the hash, and their number.
  pub summed : List (ChunkVerdict × List ℕ) → Bool × List ℕ × ℕ
  summed [] = (true, [], 0)
  summed ((v, bytes) ∷ slots) =
      let (good, out, total) = summed slots in
      if v.is_ok then (good, bytes ++ out, length bytes + total) else (false, out, total)

  pub result_of : FileRecord → List (ChunkVerdict × List ℕ) → VerificationResult
  unfolding summed
  result_of f slots =
      let (good, out, total) = summed slots in
      let actual = sha256_hex out in
      record {
        all_ok = good && (bytes_eq f.sha256 [] || bytes_eq actual f.sha256) && (total == f.size);
        file_id = f.id;
        name = f.name;
        expected_size = f.size;
        actual_size = total;
        expected_hash = f.sha256;
        actual_hash = actual;
        verdicts = map (λ (slot : ChunkVerdict × List ℕ). slot.0) slots;
      }

  module _ {W : Type 0} (api : DiscordApi W) (aead : Aead) (file_id : Text) (key : List ℕ) where
    -- The workers: the parts of the indices in `order`, one after the other.
    pub fetch_all :
        List ℕ
        → List ChunkRecord
        → List (ChunkVerdict × List ℕ)
        → Engine W
        → List (ChunkVerdict × List ℕ) × Engine W
    unfolding judged
    fetch_all [] parts slots e = (slots, e)
    fetch_all (i ∷ order) parts slots e = elim (get_elem? parts i) [
      | none ↦ fetch_all order parts slots e
      | some c ↦
          let fetched = fetch_chunk api aead file_id c key e in
          fetch_all order parts (set slots i (judged c fetched.0)) fetched.1
    ]

    judged_all :
        Bool
        → FileRecord
        → List (ChunkVerdict × List ℕ) × Engine W
        → Result VerifyError VerificationResult × Engine W
    unfolding result_of
    judged_all true f (slots, e) = (err cancelled, e)
    judged_all false f (slots, e) = (ok (record (result_of f slots) { file_id = file_id }), e)

    verify_parts :
        Bool
        → List ℕ
        → FileRecord
        → Engine W
        → Result VerifyError (List ChunkRecord) × Store
        → Result VerifyError VerificationResult × Engine W
    unfolding judged_all fetch_all
    verify_parts stopped order f e (err fault, s) = (err fault, record e { store = s })
    verify_parts stopped order f e (ok [], s) = (err no_parts, record e { store = s })
    verify_parts stopped order f e (ok (c ∷ cs), s) = judged_all stopped f (
        fetch_all order (c ∷ cs) (map (λ (p : ChunkRecord). (no_verdict, [])) (c ∷ cs))
          (record e { store = s }))

    verify_row :
        Bool
        → List ℕ
        → Engine W
        → Result DbError FileRecord × Store
        → Result VerifyError VerificationResult × Engine W
    unfolding verify_parts
    verify_row stopped order e (err fault, s) = (err no_file, record e { store = s })
    verify_row stopped order e (ok f, s) =
        if f.is_dir
        then (err is_folder, record e { store = s })
        else verify_parts stopped order f e (completed_chunks_for_file file_id s)

    pub verify_file : Bool → List ℕ → Engine W → Result VerifyError VerificationResult × Engine W
    unfolding verify_row
    verify_file stopped order e =
        if not (length key == key_length)
        then (err locked, e)
        else verify_row stopped order e (get_file file_id e.store)
