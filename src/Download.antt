-- ===== src/Download.antt =====
-- internal/downloader/downloader.go: `GetFileBytes`, and the choice and the clipping of parts in
-- `StreamDownloadRange`.
pub mod Whole
pub mod Uploaded
pub mod Range
mod Tests
use discord_free_cloud.Base.{
  ℕ, zero, suc, ◌+◌, ◌-◌, List, [], ◌∷◌, ◌++◌, Bool, true, false, ◌&&◌, not, Option, some, none,
  Result, ok, err, length, leb, ltb, ◌==◌, if◌then◌else◌, slice, Text,
}
use discord_free_cloud.Aead.{Aead, key_length}
use discord_free_cloud.Db.{FileRecord, ChunkRecord, Store, DbError}
use discord_free_cloud.Db.Files.{get_file}
use discord_free_cloud.Db.Chunks.{get_chunks_for_file}
use discord_free_cloud.Fetch.{DiscordApi, Engine, FetchError, fetch_chunk}

pub data DownloadError : Type 0 where
  locked no_file no_parts : DownloadError
  missing_part : ℕ → DownloadError
  not_fetched : FetchError → DownloadError

-- A lookup in the maps `byIndex` and `chunkMap`, which are the rows put in so far.
unfoldable pub row_of : ℕ → List ChunkRecord → Option ChunkRecord
row_of i [] = none
row_of i (c ∷ cs) = if c.chunk_index == i then some c else row_of i cs

-- The loop that fills the map: the first row of an index stays. `n` is `maxIdx + 1`.
unfoldable pub scan_rows : List ChunkRecord → ℕ → List ChunkRecord → List ChunkRecord × ℕ
unfolding row_of
scan_rows m n [] = (m, n)
scan_rows m n (c ∷ cs) = elim (row_of c.chunk_index m) [
  | some _ ↦ scan_rows m n cs
  | none ↦ scan_rows (m ++ (c ∷ [])) (if leb n c.chunk_index then c.chunk_index + 1 else n) cs
]

-- a chunk that overlaps the bytes from `start` to `end`, both included
unfoldable pub is_needed : (start end : ℕ) → ChunkRecord → Bool
is_needed start end c = ltb start (c.byte_offset + c.chunk_size) && leb c.byte_offset end

unfoldable pub needed_chunks : (start end : ℕ) → List ChunkRecord → List ChunkRecord
unfolding is_needed
needed_chunks start end [] = []
needed_chunks start end (c ∷ cs) =
    let rest = needed_chunks start end cs in if is_needed start end c then c ∷ rest else rest

-- what is written of a needed chunk
pub clipped : (start end : ℕ) → ChunkRecord → List ℕ → List ℕ
clipped start end c bytes =
    let slice_start = if ltb c.byte_offset start then start - c.byte_offset else 0 in
    let slice_end =
      if ltb (end + 1) (c.byte_offset + c.chunk_size)
      then end - c.byte_offset + 1
      else length bytes in
    if ltb slice_start (length bytes) && leb slice_end (length bytes) && ltb slice_start slice_end
    then slice bytes slice_start slice_end
    else []

-- what is written for a range, in the order of the parts, `data` being what was fetched
unfoldable pub range_bytes :
    (data_of : ChunkRecord → List ℕ) → (start end : ℕ) → List ChunkRecord → List ℕ
unfolding clipped
range_bytes data_of start end [] = []
range_bytes data_of start end (c ∷ cs) =
    clipped start end c (data_of c) ++ range_bytes data_of start end cs

module _ {W : Type 0} (api : DiscordApi W) (aead : Aead) where
  -- The loop over the indices from `i` on, `n` of them.
  pub append_parts :
      Text
      → List ℕ
      → List ChunkRecord
      → ℕ
      → ℕ
      → List ℕ
      → Engine W
      → Result DownloadError (List ℕ) × Engine W
  unfolding row_of
  append_parts file_id key m i zero out e = (ok out, e)
  append_parts file_id key m i (suc n) out e = elim (row_of i m) [
    | none ↦ (err (missing_part i), e)
    | some ch ↦
        let fetched = fetch_chunk api aead file_id ch key e in
        elim fetched.0 [
          | err f ↦ (err (not_fetched f), fetched.1)
          | ok dec ↦ append_parts file_id key m (suc i) n (out ++ dec) fetched.1
        ]
  ]

  parts_of :
      Text
      → List ℕ
      → Engine W
      → Result DbError (List ChunkRecord) × Store
      → Result DownloadError (List ℕ) × Engine W
  unfolding scan_rows append_parts
  parts_of file_id key e (err f, s) = (err no_parts, record e { store = s })
  parts_of file_id key e (ok [], s) = (err no_parts, record e { store = s })
  parts_of file_id key e (ok (c ∷ cs), s) =
      let (m, n) = scan_rows [] 0 (c ∷ cs) in
      append_parts file_id key m 0 n [] (record e { store = s })

  bytes_of :
      Text
      → List ℕ
      → Engine W
      → Result DbError FileRecord × Store
      → Result DownloadError (List ℕ) × Engine W
  unfolding parts_of
  bytes_of file_id key e (err f, s) = (err no_file, record e { store = s })
  bytes_of file_id key e (ok f, s) = parts_of file_id key e (get_chunks_for_file file_id s)

  pub get_file_bytes : Text → List ℕ → Engine W → Result DownloadError (List ℕ) × Engine W
  unfolding bytes_of
  get_file_bytes file_id key e =
      if not (length key == key_length)
      then (err locked, e)
      else bytes_of file_id key e (get_file file_id e.store)
