-- ===== src/Stream/Tests.antt =====
-- internal/downloader/downloader.go: a stream of a file of two parts.
use discord_free_cloud.Base.{
  ℕ, zero, suc, ◌+◌, ◌*◌, ◌≤◌, ◌≡◌, refl, List, [], ◌∷◌, ◌++◌, true, some, none, ok, arith, codes,
  label, bytes_eq, if◌then◌else◌, inl, slice, ◌⊎◌,
}
use discord_free_cloud.Aead.Toy.{toy}
use discord_free_cloud.Cache.{new_cache}
use discord_free_cloud.Db.{ChunkRecord, Store, query}
use discord_free_cloud.Db.Samples.{file}
use discord_free_cloud.Db.Files.{get_file}
use discord_free_cloud.Db.Chunks.{get_chunks_for_file}
use discord_free_cloud.Fetch.{DiscordApi, Engine, fetch_single_chunk, fetch_chunk}
use discord_free_cloud.Fetch.Single.{fetch_single_chunk-own}
use discord_free_cloud.Fetch.Sound.{new_cache-IsSound}
use discord_free_cloud.Fetch.Samples.{key, nonce, stored, part}
use discord_free_cloud.Download.{row_of, scan_rows, needed_chunks, clipped}
use discord_free_cloud.Download.Whole.{IsComplete, IsServed, concat}
use discord_free_cloud.Stream.{
  Stream, whole_mode, range_mode, begin, upset, cancel, started, parts_in_order, worker_limit,
  open_stream, streaming,
}
use discord_free_cloud.Stream.Order.{render_all, Reach-out, IsBroken}
use discord_free_cloud.Stream.Progress.{Run, stay}
use discord_free_cloud.Stream.Ranges.{open_range, many_parts, open_range-completes}
use discord_free_cloud.Stream.Files.{open_stream-completes}

abbrev piece : ℕ → List ℕ
piece i = 5 ∷ i ∷ []

-- a Discord on which the two parts lie under two links
abbrev two : DiscordApi (Unit {0})
two = record {
  download_chunk = λ url w. (
    if bytes_eq url (codes "u")
        then some (stored (piece 0) (label (codes "f") 0))
        else if bytes_eq url (codes "v")
        then some (stored (piece 1) (label (codes "f") 1))
        else none,
    w,
  );
  attachment_url = λ channel message attachment w. (none, w);
}

abbrev part_0 : ChunkRecord
part_0 = part (codes "a") (codes "f") (codes "u") []

abbrev part_1 : ChunkRecord
part_1 = record (part (codes "b") (codes "f") (codes "v") []) { chunk_index = 1; byte_offset = 2 }

part_0_served :
    (w : Unit {0}) (s : Store)
    → (fetch_single_chunk two toy (codes "f") part_0 key w s).0 ≡ ok (piece 0)
unfolding bytes_eq
part_0_served w s =
    fetch_single_chunk-own two toy (codes "f") part_0 w w w w s key nonce (piece 0) [] refl refl
      (omega arith) (omega arith) (inl (refl, refl))

part_1_served :
    (w : Unit {0}) (s : Store)
    → (fetch_single_chunk two toy (codes "f") part_1 key w s).0 ≡ ok (piece 1)
unfolding bytes_eq
part_1_served w s =
    fetch_single_chunk-own two toy (codes "f") part_1 w w w w s key nonce (piece 1) [] refl refl
      (omega arith) (omega arith) (inl (refl, refl))

abbrev rows : List ChunkRecord
rows = part_0 ∷ part_1 ∷ []

rows-IsServed : IsServed two toy (codes "f") key piece rows
rows-IsServed = (part_0_served, (part_1_served, tt))

rows-IsComplete : IsComplete 2 rows
unfolding row_of
rows-IsComplete zero h = refl
rows-IsComplete (suc zero) h = refl
rows-IsComplete (suc (suc i)) h = absurd (omega arith)

abbrev shelf : Store
shelf = record {
  files = file ∷ [];
  jobs = [];
  chunks = rows;
  settings = [];
  shares = [];
  faults = [];
  now = 0;
}

abbrev fresh : Engine (Unit {0})
fresh = record { net = tt; store = shelf; cache = new_cache }

abbrev whole_start : Stream (Unit {0})
whole_start = started 2 (parts_in_order rows) fresh

open_stream-completes_example :
    (open_stream 2 (codes "f") key fresh ≡ streaming whole_start)
    × (0 ≤ 4 * 2 + worker_limit 2 2 + 1)
    × ((k : ℕ) × (u : Stream (Unit {0})) × Run two toy whole_mode (codes "f") key whole_start k u
        × (u.ended ≡ some (ok tt))
        × (u.out ≡ concat piece 0 2))
unfolding get_file query bytes_eq get_chunks_for_file
open_stream-completes_example =
    open_stream-completes two toy (codes "f") key piece 2 2 fresh file shelf shelf rows 0
      whole_start refl refl refl refl (omega arith) (omega arith, (omega arith, tt)) rows-IsComplete
      rows-IsServed (new_cache-IsSound (codes "f") piece) stay

-- the bytes 1 and 2 of the file, cancelled at the start
abbrev cut_short : Stream (Unit {0})
cut_short = record (started 2 rows fresh) { stopped = true }

Reach-out_example :
    (cut_short.out ++ render_all (range_mode 1 2) piece cut_short.rest
      ≡ render_all (range_mode 1 2) piece rows)
    ⊎ IsBroken two toy
        (range_mode 1 2)
        (codes "f")
        key
        piece
        (render_all (range_mode 1 2) piece rows)
        cut_short
Reach-out_example =
    Reach-out two toy (range_mode 1 2) (codes "f") key piece 2 rows fresh cut_short rows-IsServed
      (new_cache-IsSound (codes "f") piece) (refl, (refl, tt)) (upset begin cancel)

abbrev range_start : Stream (Unit {0})
range_start = started 2 (part_1 ∷ []) (fetch_chunk two toy (codes "f") part_0 key fresh).1

open_range-completes_example :
    (open_range two toy 1 2 2 (codes "f") key fresh
      ≡ many_parts (clipped 1 2 part_0 (piece 0)) range_start)
    × (0 ≤ 4 * 1 + worker_limit 2 1 + 1)
    × ((k : ℕ) × (u : Stream (Unit {0})) × Run two toy
          (range_mode 1 2)
          (codes "f")
          key
          range_start
          k
          u
        × (u.ended ≡ some (ok tt))
        × (clipped 1 2 part_0 (piece 0) ++ u.out ≡ slice (5 ∷ 0 ∷ 5 ∷ 1 ∷ []) 1 3))
unfolding get_file query bytes_eq get_chunks_for_file needed_chunks parts_in_order scan_rows
open_range-completes_example =
    open_range-completes two toy (codes "f") key piece 1 2 2 2 0 (5 ∷ 0 ∷ 5 ∷ 1 ∷ []) fresh file
      shelf shelf part_0 part_0 part_1 (part_1 ∷ []) [] range_start refl refl refl (omega arith)
      refl
      (
        refl,
        refl,
        omega arith,
        (λ h. omega arith),
        (refl, refl, omega arith, (λ h. omega arith), refl),
      )
      (refl, (refl, tt)) rows-IsServed (refl, (refl, tt)) (new_cache-IsSound (codes "f") piece) stay
