-- ===== src/Download/Tests.antt =====
-- internal/downloader/downloader.go at concrete inputs: a file of one part, in two copies.
use discord_free_cloud.Base.{
  ℕ, ◌≡◌, refl, List, [], ◌∷◌, ok, none, slice, arith, false, codes, bytes_eq, suc, zero,
}
use discord_free_cloud.Aead.Toy.{toy}
use discord_free_cloud.Cache.{new_cache}
use discord_free_cloud.Db.{FileRecord, Store, query}
use discord_free_cloud.Db.Files.{get_file, first_file}
use discord_free_cloud.Db.Chunks.{
  get_chunks_for_file, get_chunks_for_file_and_guild, select, order_by, insert_by, index_asc,
  is_completed,
}
use discord_free_cloud.Fetch.{Engine}
use discord_free_cloud.Fetch.Sound.{new_cache-IsSound}
use discord_free_cloud.Fetch.Samples.{key, server, own, own_fetch}
use discord_free_cloud.Upload.{Placement, server_rows, total_chunks, part_offset, part_size}
use discord_free_cloud.Upload.Tiling.{server_rows-Tiles}
use discord_free_cloud.Download.{get_file_bytes, range_bytes, needed_chunks, row_of}
use discord_free_cloud.Download.Whole.{concat, IsComplete, get_file_bytes-concat}
use discord_free_cloud.Download.Range.{range_bytes-Tiles, piece_of}
use discord_free_cloud.Download.Uploaded.{part_bytes, get_file_bytes-uploaded}

abbrev file : FileRecord
file = record {
  id = codes "f";
  parent_id = [];
  name = codes "n";
  path = codes "/n";
  size = 2;
  is_dir = false;
  mod_time = 0;
  sha256 = [];
  mime_type = [];
  created_at = 0;
  favorite = false;
  trashed_at = none;
}

abbrev shelf : Store
shelf = record {
  files = file ∷ [];
  jobs = [];
  chunks = own ∷ own ∷ [];
  settings = [];
  shares = [];
  faults = [];
  now = 0;
}

abbrev fresh : Engine (Unit {0})
fresh = record { net = tt; store = shelf; cache = new_cache }

abbrev pieces : ℕ → List ℕ
pieces i = 5 ∷ 6 ∷ []

own-IsComplete : IsComplete 1 (own ∷ own ∷ [])
unfolding row_of
own-IsComplete zero h = refl
own-IsComplete (suc i) h = absurd (omega arith)

get_file_bytes-concat_example :
    (get_file_bytes server toy (codes "f") key fresh).0 ≡ ok (concat pieces 0 1)
unfolding get_file first_file query bytes_eq get_chunks_for_file get_chunks_for_file_and_guild
    select order_by insert_by index_asc is_completed
get_file_bytes-concat_example =
    get_file_bytes-concat server toy (codes "f") key pieces 1 fresh file shelf shelf
      (own ∷ own ∷ []) refl refl refl (omega arith) (omega arith, (omega arith, tt)) own-IsComplete
      (own_fetch, (own_fetch, tt)) (new_cache-IsSound (codes "f") pieces)

get_file_bytes-uploaded_example :
    (get_file_bytes server toy (codes "f") key fresh).0 ≡ ok (5 ∷ 6 ∷ [])
unfolding get_file first_file query bytes_eq get_chunks_for_file get_chunks_for_file_and_guild
    select order_by insert_by index_asc is_completed total_chunks part_offset part_size
get_file_bytes-uploaded_example =
    get_file_bytes-uploaded server toy 2 (5 ∷ 6 ∷ []) (codes "f") key fresh file shelf shelf
      (own ∷ own ∷ []) (omega arith) refl refl refl (omega arith, (omega arith, tt)) own-IsComplete
      (own_fetch, (own_fetch, tt)) (new_cache-IsSound (codes "f") (part_bytes 2 (5 ∷ 6 ∷ [])))

abbrev lone : Placement
lone = record {
  job_id = [];
  file_id = codes "f";
  guild_id = [];
  channels = codes "x" ∷ [];
  rot_start = 0;
  part_id = λ i. i ∷ [];
  now = 0;
}

range_bytes-Tiles_example :
    range_bytes (piece_of (5 ∷ 6 ∷ 7 ∷ [])) 1 2 (needed_chunks 1 2 (server_rows lone 2 3))
    ≡ slice (5 ∷ 6 ∷ 7 ∷ []) 1 3
range_bytes-Tiles_example =
    range_bytes-Tiles 2 1 2 (5 ∷ 6 ∷ 7 ∷ []) (server_rows lone 2 3) (omega arith)
      (server_rows-Tiles lone 2 3 (omega arith) (omega arith))
