-- ===== src/Download/Range.antt =====
-- internal/downloader/downloader.go: what `StreamDownloadRange` writes of the parts of a file.
use discord_free_cloud.Base.{
  ℕ, suc, ◌+◌, ◌-◌, ◌≤◌, ◌<◌, ◌≡◌, refl, sym, ap, ap₂, ◌∙◌, max, min, List, [], ◌∷◌, ◌++◌, true,
  false, length, leb, ltb, if◌then◌else◌, slice, length-slice, slice_nil, slice_past, slice-join,
  slice-slice, append-nil, arith, Bool-cases, inl, inr, ◌⊎◌,
}
use discord_free_cloud.Db.{ChunkRecord}
use discord_free_cloud.Upload.Tiling.{Tiles}
use discord_free_cloud.Download.{is_needed, needed_chunks, clipped, range_bytes}

-- the bytes of the file that a row stands for
abbrev pub piece_of : List ℕ → ChunkRecord → List ℕ
piece_of content c = slice content c.byte_offset (c.byte_offset + c.chunk_size)

clipped-slice :
    (start end at size : ℕ) (content : List ℕ) (c : ChunkRecord)
    → c.byte_offset ≡ at
    → c.chunk_size ≡ size
    → at + size ≤ length content
    → 0 < size
    → start < at + size
    → at ≤ end
    → clipped start end c (slice content at (at + size))
      ≡ slice content (max start at) (min (end + 1) (at + size))
unfolding clipped
clipped-slice start end at size content c here sz fits long p q =
    let piece : List ℕ = slice content at (at + size) in
    let lo : ℕ = max start at - at in
    let hi : ℕ = min (end + 1) (at + size) - at in
    let len : length piece ≡ size = omega (arith, length-slice content at (at + size)) in
    let first : (if ltb c.byte_offset start then start - c.byte_offset else 0) ≡ lo =
      ground arith in
    let last : (if ltb (end + 1) (c.byte_offset + c.chunk_size)
          then end - c.byte_offset + 1
          else length piece)
        ≡ hi =
      ground (arith, len) in
    let inside : ltb lo (length piece) ≡ true = ground (arith, len) in
    let within : leb hi (length piece) ≡ true = ground (arith, len) in
    rw (first, last, inside, within)
      (elim (Bool-cases (ltb lo hi)) [
        | inl some_part ↦ rw some_part (
            slice-slice content at (at + size) lo hi (omega arith)
            ∙ ap₂ (slice content) (let e : at + lo ≡ max start at = omega arith in e)
                (let e : at + hi ≡ min (end + 1) (at + size) = omega arith in e))
        | inr no_part ↦
            rw no_part
              (sym (slice_nil content (max start at) (min (end + 1) (at + size)) (ground arith)))
      ])

pub Tiles-le :
    (most size i at : ℕ) (rows : List ChunkRecord) → Tiles most size i at rows → at ≤ size
Tiles-le most size i at [] t = omega arith
Tiles-le most size i at (c ∷ cs) (index, here, most', some_bytes, t) =
    omega (arith, Tiles-le most size (suc i) (at + c.chunk_size) cs t)

joined :
    (start end at next : ℕ) (content : List ℕ)
    → at ≤ next
    → start < next
    → start ≤ end
    → at ≤ end
    → slice content (max start at) (min (end + 1) next) ++ slice content (max start next) (end + 1)
      ≡ slice content (max start at) (end + 1)
joined start end at next content fwd p h q = elim (Bool-cases (leb next (end + 1))) [
  | inl more ↦
      let cut : min (end + 1) next ≡ next = ground arith in
      let from : max start next ≡ next = omega arith in
      rw (cut, from) (slice-join content (max start at) next (end + 1) (omega arith) (ground arith))
  | inr over ↦
      let cut : min (end + 1) next ≡ end + 1 = ground arith in
      let none_left : slice content (max start next) (end + 1) ≡ [] =
        slice_nil content (max start next) (end + 1) (ground arith) in
      rw (cut, none_left) (append-nil _)
]

skipped :
    (start end at next : ℕ) (content : List ℕ)
    → at ≤ next
    → next ≤ start ⊎ end < at
    → slice content (max start next) (end + 1) ≡ slice content (max start at) (end + 1)
skipped start end at next content fwd (inl before) =
    ap (λ (n : ℕ). slice content n (end + 1))
      (let e : max start next ≡ max start at = omega arith in e)
skipped start end at next content fwd (inr behind) =
    slice_nil content (max start next) (end + 1) (omega arith)
    ∙ sym (slice_nil content (max start at) (end + 1) (omega arith))

apart :
    (start end at : ℕ) (c : ChunkRecord)
    → c.byte_offset ≡ at
    → is_needed start end c ≡ false
    → at + c.chunk_size ≤ start ⊎ end < at
unfolding is_needed
apart start end at c here no_need = elim (Bool-cases (ltb start (c.byte_offset + c.chunk_size))) [
  | inl reaches ↦
      inr (let h : leb c.byte_offset end ≡ false = rw reaches at no_need in ground arith)
  | inr short ↦ inl (ground arith)
]

range_bytes-slice :
    (most start end i at : ℕ) (content : List ℕ) (rows : List ChunkRecord)
    → start ≤ end
    → Tiles most (length content) i at rows
    → range_bytes (piece_of content) start end (needed_chunks start end rows)
      ≡ slice content (max start at) (end + 1)
unfolding range_bytes needed_chunks is_needed
range_bytes-slice most start end i at content [] h t =
    sym (slice_past content (max start at) (end + 1) (omega arith))
range_bytes-slice most start end i at content (c ∷ cs) h (index, here, most', some_bytes, t) =
    let next : ℕ = at + c.chunk_size in
    let fits : next ≤ length content = Tiles-le most (length content) (suc i) next cs t in
    let rest : range_bytes (piece_of content) start end (needed_chunks start end cs)
        ≡ slice content (max start next) (end + 1) =
      range_bytes-slice most start end (suc i) next content cs h t in
    elim (Bool-cases (is_needed start end c)) [
      | inl need ↦
          let p : start < next = ground arith in
          let q : at ≤ end = ground arith in
          let own : clipped start end c (piece_of content c)
              ≡ slice content (max start at) (min (end + 1) next) =
            ap (λ (n : ℕ). clipped start end c (slice content n (n + c.chunk_size))) here
            ∙ clipped-slice start end at c.chunk_size content c here refl fits
                (some_bytes (omega arith)) p q in
          rw need (ap₂ (◌++◌) own rest ∙ joined start end at next content (omega arith) p h q)
      | inr no_need ↦ rw no_need (
          rest
          ∙ skipped start end at next content (omega arith) (apart start end at c here no_need))
    ]

-- Of parts that tile the file, each fetched as its own bytes, a range request whose start is not
-- behind its end writes exactly the bytes of its range, the last one included, or up to the end of
-- the file where the range goes beyond it.
pub range_bytes-Tiles :
    (most start end : ℕ) (content : List ℕ) (rows : List ChunkRecord)
    → start ≤ end
    → Tiles most (length content) 0 0 rows
    → range_bytes (piece_of content) start end (needed_chunks start end rows)
      ≡ slice content start (end + 1)
range_bytes-Tiles most start end content rows h t =
    range_bytes-slice most start end 0 0 content rows h t
    ∙ ap (λ (n : ℕ). slice content n (end + 1)) (let e : max start 0 ≡ start = omega arith in e)
