-- ===== src/Db.antt =====
-- internal/db/db.go: the rows of the catalog and the statements on them. PostgreSQL is a table as a
-- list of rows, oldest first, in which a statement takes effect whole or not at all; the faults of
-- the connection are a list of outcomes that the statements use up.
pub mod Chunks
pub mod Jobs
pub mod Samples
pub mod Settings
pub mod Rows
pub mod Shares
pub mod Marks
pub mod Counts
pub mod Health
pub mod Files
pub mod Faults
use discord_free_cloud.Base.{
  ℕ, ◌+◌, List, [], ◌∷◌, Bool, true, false, Option, some, none, Result, ok, err, if◌then◌else◌,
  Text, leb,
}

pub data ChunkStatus : Type 0 where
  pending uploading completed failed : ChunkStatus

pub data JobStatus : Type 0 where
  active paused done broken : JobStatus

-- `TrashedAt` and `CompletedAt` are `none` for NULL.
pub record FileRecord : Type 0 where
  pub id : Text
  pub parent_id : Text
  pub name : Text
  pub path : Text
  pub size : ℕ
  pub is_dir : Bool
  pub mod_time : ℕ
  pub sha256 : Text
  pub mime_type : Text
  pub created_at : ℕ
  pub favorite : Bool
  pub trashed_at : Option ℕ

pub record JobRecord : Type 0 where
  pub id : Text
  pub kind : Text
  pub file_id : Text
  pub file_path : Text
  pub total_bytes : ℕ
  pub total_chunks : ℕ
  pub completed_chunks : ℕ
  pub status : JobStatus
  pub created_at : ℕ
  pub completed_at : Option ℕ

pub record ChunkRecord : Type 0 where
  pub id : Text
  pub job_id : Text
  pub file_id : Text
  pub chunk_index : ℕ
  pub byte_offset : ℕ
  pub chunk_size : ℕ
  pub sha256 : Text
  pub guild_id : Text
  pub channel_id : Text
  pub message_id : Text
  pub attachment_id : Text
  pub attachment_url : Text
  pub status : ChunkStatus
  pub retry_count : ℕ
  pub created_at : ℕ
  pub completed_at : Option ℕ

-- Expiry and creation are Unix times.
pub record ShareRecord : Type 0 where
  pub id : Text
  pub token_hash : Text
  pub file_id : Text
  pub expires_at : ℕ
  pub created_at : ℕ
  pub downloads : ℕ

-- The tables, the faults to come (`true`: the statement fails) and the clock, `time.Now().Unix()`.
pub record Store : Type 0 where
  pub files : List FileRecord
  pub jobs : List JobRecord
  pub chunks : List ChunkRecord
  pub settings : List (Text × Text)
  pub shares : List ShareRecord
  pub faults : List Bool
  pub now : ℕ

pub data DbError : Type 0 where
  no_connection bad_statement constraint_violated no_rows : DbError

-- A statement that reads, and one that writes; the latter may be refused.
unfoldable pub query {ℓ} :
    {A : Type ℓ} → (Store → Result DbError A) → Store → Result DbError A × Store
query f s = elim s.faults [
  | [] ↦ (f s, s)
  | fault ∷ faults ↦
      (let s1 = record s { faults = faults } in
        elim fault [ true ↦ (err no_connection, s1) | false ↦ (f s1, s1) ])
]

pub committed : Store → Result DbError Store → Result DbError (Unit {0}) × Store
committed s (ok s') = (ok tt, s')
committed s (err e) = (err e, s)

unfoldable pub exec : (Store → Result DbError Store) → Store → Result DbError (Unit {0}) × Store
unfolding committed
exec f s = elim s.faults [
  | [] ↦ committed s (f s)
  | fault ∷ faults ↦
      (let s1 = record s { faults = faults } in
        elim fault [ true ↦ (err no_connection, s1) | false ↦ committed s1 (f s1) ])
]
