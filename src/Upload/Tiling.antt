-- ===== src/Upload/Tiling.antt =====
-- internal/uploader/uploader.go: the parts of an upload tile the file.
use native.Mathlib.Nat.{div-mul-le_self, lt-div-mul-add, mod-lt}
use discord_free_cloud.Base.{
  ℕ, zero, suc, ◌+◌, ◌-◌, ◌*◌, ◌/◌, ◌%◌, ◌≤◌, ◌<◌, ◌≡◌, refl, sym, ap, List, [], ◌∷◌, false, some,
  length, length-append, ◌==◌, arith, get_elem?-some, Text, Bool-cases, inl, inr,
}
use discord_free_cloud.Db.{ChunkRecord}
use discord_free_cloud.Upload.{
  Placement, total_chunks, part_offset, part_size, part_row, part_rows, server_rows, pending_chunks,
  total_work_items, channel_of,
}

-- The rows hold the parts from index `i` and byte `at` on, gapless and in order, up to byte `size`;
-- none is longer than `most`, and none is empty but for an empty file.
abbrev pub Tiles : (most size i at : ℕ) → List ChunkRecord → Type 0
Tiles most size i at [] = at ≡ size
Tiles most size i at (c ∷ cs) =
    (c.chunk_index ≡ i)
    × (c.byte_offset ≡ at)
    × (c.chunk_size ≤ most)
    × (0 < size → 0 < c.chunk_size)
    × Tiles most size (suc i) (at + c.chunk_size) cs

total_chunks_enough : (cs fs : ℕ) → 0 < cs → fs ≤ total_chunks cs fs * cs
unfolding total_chunks
total_chunks_enough cs fs h =
    let n : ℕ = (fs + cs - 1) / cs in
    let above : fs + cs - 1 < n * cs + cs = lt-div-mul-add h in
    elim (Bool-cases (n == 0)) [
      | inl zero_parts ↦
          let z : n ≡ 0 = ground arith in
          let above' : fs + cs - 1 < 0 * cs + cs = rw z at above in rw zero_parts (omega arith)
      | inr parts ↦ rw parts (omega arith)
    ]

total_chunks_least : (cs fs : ℕ) → 0 < cs → total_chunks cs fs * cs ≤ fs + cs
unfolding total_chunks
total_chunks_least cs fs h =
    let n : ℕ = (fs + cs - 1) / cs in
    let below : n * cs ≤ fs + cs - 1 = div-mul-le_self (fs + cs - 1) cs in
    elim (Bool-cases (n == 0)) [
      | inl zero_parts ↦ rw zero_parts (omega arith)
      | inr parts ↦ rw parts (omega arith)
    ]

total_chunks_strict : (cs fs : ℕ) → 0 < cs → 0 < fs → total_chunks cs fs * cs < fs + cs
unfolding total_chunks
total_chunks_strict cs fs h p =
    let n : ℕ = (fs + cs - 1) / cs in
    let below : n * cs ≤ fs + cs - 1 = div-mul-le_self (fs + cs - 1) cs in
    elim (Bool-cases (n == 0)) [
      | inl zero_parts ↦ rw zero_parts (omega arith)
      | inr parts ↦ rw parts (omega arith)
    ]

pub total_chunks_suc : (cs fs : ℕ) → (n : ℕ) × (total_chunks cs fs ≡ suc n)
unfolding total_chunks
total_chunks_suc cs fs = (total_chunks cs fs - 1, ground arith)

pub length-part_rows : (p : Placement) (cs fs i n : ℕ) → length (part_rows p cs fs i n) ≡ n
unfolding part_rows
length-part_rows p cs fs i zero = refl
length-part_rows p cs fs i (suc n) = ap suc (length-part_rows p cs fs (suc i) n)

part_size-full : (cs fs i : ℕ) → i * cs + cs ≤ fs → part_size cs fs i ≡ cs
unfolding part_size part_offset
part_size-full cs fs i h = ground arith

part_size-last : (cs fs i : ℕ) → i * cs ≤ fs → fs ≤ i * cs + cs → i * cs + part_size cs fs i ≡ fs
unfolding part_size part_offset
part_size-last cs fs i low high = ground arith

part_rows-Tiles :
    (p : Placement) (cs fs i n at : ℕ)
    → at ≡ i * cs
    → 0 < cs
    → fs ≤ i * cs + suc n * cs
    → i * cs + suc n * cs ≤ fs + cs
    → (0 < fs → i * cs + suc n * cs < fs + cs)
    → Tiles cs fs i at (part_rows p cs fs i (suc n))
unfolding part_rows part_row part_offset
part_rows-Tiles p cs fs i zero at here h enough least strict =
    let last : i * cs + part_size cs fs i ≡ fs =
      part_size-last cs fs i (omega arith) (omega arith) in
    (
      refl,
      sym here,
      omega (arith, last),
      λ some_bytes. let s = strict some_bytes in omega (arith, s, last),
      omega (arith, last, here),
    )
part_rows-Tiles p cs fs i (suc n) at here h enough least strict =
    let full : part_size cs fs i ≡ cs = part_size-full cs fs i (omega arith) in
    let next : i * cs + cs ≡ suc i * cs = omega arith in
    (
      refl,
      sym here,
      omega (arith, full),
      λ some_bytes. omega (arith, full),
      rw full (
          part_rows-Tiles p cs fs (suc i) n (at + cs) (omega (arith, here, next)) h (omega arith)
            (omega arith) (λ some_bytes. let s = strict some_bytes in omega (arith, s))),
    )

-- With a positive chunk size, the parts of a file on one server that has channels tile the file:
-- their offsets and sizes leave no gap and no overlap from byte 0 to the file's size, their indices
-- count from 0, and no part is longer than the chunk size. No part is empty, but for the one part
-- of an empty file.
pub server_rows-Tiles :
    (p : Placement) (chunk_size file_size : ℕ)
    → 0 < chunk_size
    → 0 < length p.channels
    → Tiles chunk_size file_size 0 0 (server_rows p chunk_size file_size)
unfolding server_rows
server_rows-Tiles p cs fs h some_channel =
    let some_channels : (length p.channels == 0) ≡ false = ground arith in
    let (n, same) = total_chunks_suc cs fs in
    let enough : fs ≤ suc n * cs = rw same at (total_chunks_enough cs fs h) in
    let least : suc n * cs ≤ fs + cs = rw same at (total_chunks_least cs fs h) in
    let strict : 0 < fs → suc n * cs < fs + cs = rw same at (total_chunks_strict cs fs h) in
    rw (some_channels, same)
      (part_rows-Tiles p cs fs 0 n 0 (omega arith) h (omega (arith, enough)) (omega (arith, least))
        (λ some_bytes. let s = strict some_bytes in omega (arith, s)))

-- The job of an upload counts exactly the rows that it plans.
pub total_work_items-pending_chunks :
    (chunk_size file_size : ℕ) (ps : List Placement)
    → length (pending_chunks chunk_size file_size ps) ≡ total_work_items chunk_size file_size ps
unfolding pending_chunks total_work_items server_rows
total_work_items-pending_chunks cs fs [] = refl
total_work_items-pending_chunks cs fs (p ∷ ps) = ground (
  arith,
  length-append (server_rows p cs fs) (pending_chunks cs fs ps),
  length-part_rows p cs fs 0 (total_chunks cs fs),
  total_work_items-pending_chunks cs fs ps,
)

-- Every part on a server that has channels is given a channel of its own server.
pub channel_of-some :
    (p : Placement) (i : ℕ) → 0 < length p.channels → (ch : Text) × (channel_of p i ≡ some ch)
unfolding channel_of
channel_of-some p i h =
    get_elem?-some p.channels ((p.rot_start + i) % length p.channels) (mod-lt (p.rot_start + i) h)
