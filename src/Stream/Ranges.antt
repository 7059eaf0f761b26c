-- ===== src/Stream/Ranges.antt =====
-- internal/downloader/downloader.go: `StreamDownloadRange` up to its workers, and what it sends.
use discord_free_cloud.Base.{
  ℕ, suc, ◌+◌, ◌*◌, ◌≤◌, ◌≡◌, refl, ap, ap₂, ◌∙◌, List, [], ◌∷◌, ◌++◌, true, false, not, Option,
  some, none, Result, ok, err, ◌==◌, if◌then◌else◌, length, slice, arith, Text, label, Bool-cases,
  inl, inr,
}
use discord_free_cloud.Cache.{get_cached_chunk}
use discord_free_cloud.Cache.Valid.{present}
use discord_free_cloud.Aead.{Aead, key_length}
use discord_free_cloud.Db.{FileRecord, ChunkRecord, Store, DbError}
use discord_free_cloud.Db.Files.{get_file}
use discord_free_cloud.Db.Chunks.{get_chunks_for_file}
use discord_free_cloud.Fetch.{DiscordApi, Engine, FetchError, fetch_chunk}
use discord_free_cloud.Fetch.Sound.{IsSound, fetch_chunk-IsSound}
use discord_free_cloud.Download.{row_of, scan_rows, is_needed, needed_chunks, clipped, range_bytes}
use discord_free_cloud.Download.Whole.{IsServed}
use discord_free_cloud.Download.Range.{piece_of, range_bytes-Tiles}
use discord_free_cloud.Upload.Tiling.{Tiles}
use discord_free_cloud.Stream.{
  Stream, StreamError, locked, no_file, no_parts, not_fetched, range_mode, parts_in_order, started,
  worker_limit,
}
use discord_free_cloud.Stream.Order.{render_all, HasSlots}
use discord_free_cloud.Stream.Healthy.{holds, IsDistinct}
use discord_free_cloud.Stream.Progress.{Run, Run-completes}

-- How `StreamDownloadRange` goes on: it has returned an error, or has nothing to send, or has sent the
-- bytes of the one part that it needs and may fetch the part behind it for later, or has sent those of
-- its first part and starts the workers on the others.
pub data RangeOpening (W : Type 0) : Type 0 where
  refused : StreamError → RangeOpening W
  nothing : RangeOpening W
  one_part : List ℕ → Option ChunkRecord → Engine W → RangeOpening W
  many_parts : List ℕ → Stream W → RangeOpening W

-- the part to fetch ahead, if it is there and not in the cache
module _ {W : Type 0} where
  pub fetched_ahead : Text → ℕ → List ChunkRecord → Engine W → Option ChunkRecord
  fetched_ahead file_id index m e = elim (row_of (suc index) m) [
    | none ↦ none
    | some c ↦
        (if present (get_cached_chunk e.cache (label file_id c.chunk_index)) then none else some c)
  ]

module _ {W : Type 0} (api : DiscordApi W) (aead : Aead) (start end workers : ℕ) (file_id : Text)
    (key : List ℕ) where
  behind_first :
      List ChunkRecord
      → ChunkRecord
      → List ChunkRecord
      → Result FetchError (List ℕ) × Engine W
      → RangeOpening W
  unfolding fetched_ahead started
  behind_first m c cs (err f, e) = refused (not_fetched f)
  behind_first m c [] (ok bytes, e) =
      one_part (clipped start end c bytes) (fetched_ahead file_id c.chunk_index m e) e
  behind_first m c (d ∷ ds) (ok bytes, e) =
      many_parts (clipped start end c bytes) (started workers (d ∷ ds) e)

  range_of_parts : List ChunkRecord → List ChunkRecord → Engine W → RangeOpening W
  unfolding behind_first
  range_of_parts m [] e = nothing
  range_of_parts m (c ∷ cs) e = behind_first m c cs (fetch_chunk api aead file_id c key e)

  range_of_rows : Engine W → Result DbError (List ChunkRecord) × Store → RangeOpening W
  unfolding range_of_parts needed_chunks parts_in_order
  range_of_rows e (err f, s) = refused no_parts
  range_of_rows e (ok [], s) = refused no_parts
  range_of_rows e (ok (c ∷ cs), s) =
      range_of_parts (scan_rows [] 0 (c ∷ cs)).0 (needed_chunks start end (parts_in_order (c ∷ cs)))
        (record e { store = s })

  range_of_file : Engine W → Result DbError FileRecord × Store → RangeOpening W
  unfolding range_of_rows
  range_of_file e (err f, s) = refused no_file
  range_of_file e (ok f, s) = range_of_rows e (get_chunks_for_file file_id s)

  pub open_range : Engine W → RangeOpening W
  unfolding range_of_file
  open_range e =
      if not (length key == key_length)
      then refused locked
      else range_of_file e (get_file file_id e.store)

  behind_first-many :
      (m ds : List ChunkRecord) (c d : ChunkRecord) (bytes : List ℕ)
      (r : Result FetchError (List ℕ) × Engine W)
      → r.0 ≡ ok bytes
      → behind_first m c (d ∷ ds) r
        ≡ many_parts (clipped start end c bytes) (started workers (d ∷ ds) r.1)
  unfolding behind_first
  behind_first-many m ds c d bytes (ok got, e) h =
      let same : got ≡ bytes = cc in
      ap (λ b. many_parts (clipped start end c b) (started workers (d ∷ ds) e)) same
  behind_first-many m ds c d bytes (err f, e) h = absurd (cc)

-- every part is a piece of the content
abbrev pub ArePieces : (ℕ → List ℕ) → List ℕ → List ChunkRecord → Type 0
ArePieces pieces content [] = Unit {0}
ArePieces pieces content (c ∷ cs) =
    (pieces c.chunk_index ≡ piece_of content c) × ArePieces pieces content cs

HasSlots-range :
    (start end i : ℕ) (parts : List ChunkRecord) → HasSlots (range_mode start end) i parts
HasSlots-range start end i [] = tt
HasSlots-range start end i (c ∷ cs) = (refl, HasSlots-range start end (suc i) cs)

holds-needed :
    (start end i : ℕ) (parts : List ChunkRecord)
    → holds i parts ≡ false
    → holds i (needed_chunks start end parts) ≡ false
unfolding needed_chunks
holds-needed start end i [] h = refl
holds-needed start end i (c ∷ cs) h = ground (arith, holds-needed start end i cs)

needed-IsDistinct :
    (start end : ℕ) (parts : List ChunkRecord)
    → IsDistinct parts
    → IsDistinct (needed_chunks start end parts)
unfolding needed_chunks
needed-IsDistinct start end [] d = tt
needed-IsDistinct start end (c ∷ cs) (new, d) = elim (Bool-cases (is_needed start end c)) [
  | inl need ↦
      rw need (holds-needed start end c.chunk_index cs new, needed-IsDistinct start end cs d)
  | inr other ↦ rw other (needed-IsDistinct start end cs d)
]

needed-ArePieces :
    (start end : ℕ) (pieces : ℕ → List ℕ) (content : List ℕ) (parts : List ChunkRecord)
    → ArePieces pieces content parts
    → ArePieces pieces content (needed_chunks start end parts)
unfolding needed_chunks
needed-ArePieces start end pieces content [] v = tt
needed-ArePieces start end pieces content (c ∷ cs) (own, v) =
    elim (Bool-cases (is_needed start end c)) [
      | inl need ↦ rw need (own, needed-ArePieces start end pieces content cs v)
      | inr other ↦ rw other (needed-ArePieces start end pieces content cs v)
    ]

-- what the stream of a range is to write
render_all-range :
    (start end : ℕ) (pieces : ℕ → List ℕ) (content : List ℕ) (parts : List ChunkRecord)
    → ArePieces pieces content parts
    → render_all (range_mode start end) pieces parts
      ≡ range_bytes (piece_of content) start end parts
unfolding range_bytes
render_all-range start end pieces content [] v = refl
render_all-range start end pieces content (c ∷ cs) (own, v) =
    ap₂ (◌++◌) (ap (clipped start end c) own) (render_all-range start end pieces content cs v)

module _ {W : Type 0} (api : DiscordApi W) (aead : Aead) (file_id : Text) (key : List ℕ)
    (pieces : ℕ → List ℕ) where
  needed-IsServed :
      (start end : ℕ) (parts : List ChunkRecord)
      → IsServed api aead file_id key pieces parts
      → IsServed api aead file_id key pieces (needed_chunks start end parts)
  unfolding needed_chunks
  needed-IsServed start end [] v = tt
  needed-IsServed start end (c ∷ cs) (own, v) = elim (Bool-cases (is_needed start end c)) [
    | inl need ↦ rw need (own, needed-IsServed start end cs v)
    | inr other ↦ rw other (needed-IsServed start end cs v)
  ]

  -- A range request whose start is not behind its end and that needs two parts or more of a file whose
  -- parts tile its content: its first part is fetched and its bytes are sent; the stream of the others,
  -- if it is not cancelled and the browser takes everything, does at most four steps for each part, one
  -- for each worker and one more, in whatever order its goroutines run; at every point it can go on to
  -- its end; and then exactly the bytes of the range have been sent, or up to the end of the file where
  -- the range goes beyond it. This holds with a key of 32 bytes, where the catalog returns the file and
  -- its rows, each part can be fetched and is its piece of the content, the parts have different
  -- indices, and what is cached is right.
  pub open_range-completes :
      (start end workers most n : ℕ) (content : List ℕ) (e : Engine W) (f : FileRecord)
      (s1 s2 : Store) (row c d : ChunkRecord) (rows cs : List ChunkRecord) (t : Stream W)
      → length key ≡ key_length
      → get_file file_id e.store ≡ (ok f, s1)
      → get_chunks_for_file file_id s1 ≡ (ok (row ∷ rows), s2)
      → start ≤ end
      → needed_chunks start end (parts_in_order (row ∷ rows)) ≡ c ∷ d ∷ cs
      → Tiles most (length content) 0 0 (parts_in_order (row ∷ rows))
      → IsDistinct (parts_in_order (row ∷ rows))
      → IsServed api aead file_id key pieces (parts_in_order (row ∷ rows))
      → ArePieces pieces content (parts_in_order (row ∷ rows))
      → IsSound file_id pieces e.cache
      → let first = clipped start end c (pieces c.chunk_index) in
        let began =
          started workers
            (d ∷ cs)
            (fetch_chunk api aead file_id c key (record e { store = s2 })).1 in
        Run api aead (range_mode start end) file_id key began n t
        → (open_range api aead start end workers file_id key e ≡ many_parts first began)
          × (n ≤ 4 * length (d ∷ cs) + worker_limit workers (length (d ∷ cs)) + 1)
          × ((k : ℕ) × (u : Stream W) × Run api aead (range_mode start end) file_id key t k u
              × (u.ended ≡ some (ok tt))
              × (first ++ u.out ≡ slice content start (end + 1)))
  unfolding open_range range_of_file range_of_rows range_of_parts
  open_range-completes start end workers most n content e f s1 s2 row c d rows cs t k file chunks
        fwd needed tiles distinct served agree sound r =
      let parts : List ChunkRecord = parts_in_order (row ∷ rows) in
      let (serves, served') =
        (let w : IsServed api aead file_id key pieces (c ∷ d ∷ cs) =
            rw needed at (needed-IsServed start end parts served) in
          w) in
      let (new, distinct') =
        (let w : IsDistinct (c ∷ d ∷ cs) =
            rw needed at (needed-IsDistinct start end parts distinct) in
          w) in
      let agree' : ArePieces pieces content (c ∷ d ∷ cs) =
        rw needed at (needed-ArePieces start end pieces content parts agree) in
      let (got, sound') =
        fetch_chunk-IsSound api aead file_id c key pieces (record e { store = s2 }) sound serves in
      let (bound, (m, u, r', over, out)) =
        Run-completes api aead (range_mode start end) file_id key pieces workers (d ∷ cs)
          (fetch_chunk api aead file_id c key (record e { store = s2 })).1 n t served' sound'
          (HasSlots-range start end 0 (d ∷ cs)) distinct' r in
      let unlocked : (length key == key_length) ≡ true = ground arith in
      let whole : range_bytes (piece_of content) start end (c ∷ d ∷ cs)
          ≡ slice content start (end + 1) =
        rw needed at (range_bytes-Tiles most start end content parts fwd tiles) in
      (
        rw (unlocked, file, chunks, needed)
            (behind_first-many api aead start end workers file_id key
              (scan_rows [] 0 (row ∷ rows)).0 cs c d (pieces c.chunk_index) _ got),
        bound,
        (
          m,
          u,
          r',
          over,
          ap (λ l. clipped start end c (pieces c.chunk_index) ++ l) out
              ∙ (render_all-range start end pieces content (c ∷ d ∷ cs) agree' ∙ whole),
        ),
      )
