-- ===== src/Download/Uploaded.antt =====
-- internal/uploader/uploader.go and internal/downloader/downloader.go: a file that was cut by
-- `UploadFile` is put together again by `GetFileBytes`.
use discord_free_cloud.Base.{
  ℕ, zero, suc, ◌+◌, ◌-◌, ◌≤◌, ◌<◌, ◌≡◌, sym, ap, ap₂, ◌∙◌, List, [], ◌∷◌, ◌++◌, ok, length, slice,
  slice_past, slice-join, take_of_length-le, Text, arith,
}
use discord_free_cloud.Aead.{Aead, key_length}
use discord_free_cloud.Db.{FileRecord, ChunkRecord, Store}
use discord_free_cloud.Db.Files.{get_file}
use discord_free_cloud.Db.Chunks.{get_chunks_for_file}
use discord_free_cloud.Fetch.{DiscordApi, Engine}
use discord_free_cloud.Fetch.Sound.{IsSound}
use discord_free_cloud.Upload.{
  Placement, part_offset, part_size, part_row, part_rows, server_rows, total_chunks,
}
use discord_free_cloud.Upload.Tiling.{Tiles, server_rows-Tiles, total_chunks_suc}
use discord_free_cloud.Download.{get_file_bytes}
use discord_free_cloud.Download.Whole.{
  concat, IsWithin, IsComplete, IsServed, get_file_bytes-concat,
}
use discord_free_cloud.Download.Range.{Tiles-le}

-- the bytes of part `i` of a file
abbrev pub part_bytes : (chunk_size : ℕ) (content : List ℕ) → ℕ → List ℕ
part_bytes chunk_size content i =
    slice content (part_offset chunk_size i)
      (part_offset chunk_size i + part_size chunk_size (length content) i)

concat-Tiles :
    (cs most i at n : ℕ) (content : List ℕ) (p : Placement)
    → Tiles most (length content) i at (part_rows p cs (length content) i n)
    → concat (part_bytes cs content) i n ≡ slice content at (length content)
unfolding part_rows part_row
concat-Tiles cs most i at zero content p t =
    sym (slice_past content at (length content) (omega (arith, t)))
concat-Tiles cs most i at (suc n) content p (index, here, most', some_bytes, t) =
    let size : ℕ = part_size cs (length content) i in
    let fits : at + size ≤ length content =
      Tiles-le most (length content) (suc i) (at + size) (part_rows p cs (length content) (suc i) n)
        t in
    let own : part_bytes cs content i ≡ slice content at (at + size) =
      ap (λ (n : ℕ). slice content n (n + size)) here in
    ap₂ (◌++◌) own (concat-Tiles cs most (suc i) (at + size) n content p t)
    ∙ slice-join content at (at + size) (length content) (omega arith) fits

whole : (content : List ℕ) → slice content 0 (length content) ≡ content
whole content = take_of_length-le (length content - 0) content (omega arith)

abbrev lone : Placement
lone = record {
  job_id = [];
  file_id = [];
  guild_id = [];
  channels = [] ∷ [];
  rot_start = 0;
  part_id = λ i. [];
  now = 0;
}

-- The parts that an upload cuts a file into hold, in their order, the bytes of the file.
pub concat-part_bytes :
    (chunk_size : ℕ) (content : List ℕ)
    → 0 < chunk_size
    → concat (part_bytes chunk_size content) 0 (total_chunks chunk_size (length content)) ≡ content
unfolding server_rows
concat-part_bytes cs content h =
    concat-Tiles cs cs 0 0 (total_chunks cs (length content)) content lone
      (server_rows-Tiles lone cs (length content) h (omega arith))
    ∙ whole content

module _ {W : Type 0} (api : DiscordApi W) (aead : Aead) where
  -- With a key of 32 bytes `GetFileBytes` returns the file that was uploaded, in parts of a
  -- positive size, when the catalog returns a row of the file and completed rows of the parts that
  -- `UploadFile` cuts it into, each part at least once and in any number of copies, each row can be
  -- fetched and gives the bytes of its part, and what is cached of the file is its parts.
  pub get_file_bytes-uploaded :
      (chunk_size : ℕ) (content : List ℕ) (file_id : Text) (key : List ℕ) (e : Engine W)
      (f : FileRecord) (s1 s2 : Store) (rows : List ChunkRecord)
      → 0 < chunk_size
      → length key ≡ key_length
      → get_file file_id e.store ≡ (ok f, s1)
      → get_chunks_for_file file_id s1 ≡ (ok rows, s2)
      → IsWithin (total_chunks chunk_size (length content)) rows
      → IsComplete (total_chunks chunk_size (length content)) rows
      → IsServed api aead file_id key (part_bytes chunk_size content) rows
      → IsSound file_id (part_bytes chunk_size content) e.cache
      → (get_file_bytes api aead file_id key e).0 ≡ ok content
  get_file_bytes-uploaded cs content file_id key e f s1 s2 rows h k file chunks w c served sound =
      let (n, same) = total_chunks_suc cs (length content) in
      get_file_bytes-concat api aead file_id key (part_bytes cs content)
        (total_chunks cs (length content)) e f s1 s2 rows k file chunks (omega (arith, same)) w c
        served sound
      ∙ ap ok (concat-part_bytes cs content h)
