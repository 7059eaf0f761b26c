-- ===== src/Stream/Files.antt =====
-- internal/downloader/downloader.go: `StreamDownload` sends the bytes of the file.
use discord_free_cloud.Base.{
  ℕ, zero, suc, ◌+◌, ◌*◌, ◌≤◌, ◌<◌, ◌≡◌, ◌≢◌, refl, sym, ap, ◌∙◌, List, [], ◌∷◌, ◌++◌, true, false,
  some, none, ok, ◌==◌, if◌then◌else◌, length, arith, Text, Bool-cases, Option-cases, inl, inr,
}
use discord_free_cloud.Cache.Valid.{present}
use discord_free_cloud.Aead.{Aead, key_length}
use discord_free_cloud.Db.{FileRecord, ChunkRecord, Store}
use discord_free_cloud.Db.Files.{get_file}
use discord_free_cloud.Db.Chunks.{get_chunks_for_file}
use discord_free_cloud.Fetch.{DiscordApi, Engine, fetch_single_chunk}
use discord_free_cloud.Fetch.Sound.{IsSound}
use discord_free_cloud.Download.{row_of, scan_rows}
use discord_free_cloud.Download.Whole.{IsServed, IsWithin, IsComplete, concat, row_of-scan_rows}
use discord_free_cloud.Stream.{
  Stream, whole_mode, in_order, parts_in_order, started, worker_limit, streaming, with_parts,
  with_rows, with_file, open_stream,
}
use discord_free_cloud.Stream.Order.{render_all, HasSlots}
use discord_free_cloud.Stream.Healthy.{holds, IsDistinct}
use discord_free_cloud.Stream.Progress.{Run, Run-completes}

-- the rows of the other indices
abbrev without : ℕ → List ChunkRecord → List ChunkRecord
without i [] = []
without i (c ∷ cs) = let rest = without i cs in if c.chunk_index == i then rest else c ∷ rest

row_of-without : (i j : ℕ) (m : List ChunkRecord) → i ≢ j → row_of j (without i m) ≡ row_of j m
unfolding row_of
row_of-without i j [] apart = refl
row_of-without i j (c ∷ cs) apart = ground (arith, row_of-without i j cs apart)

length-without : (i : ℕ) (m : List ChunkRecord) → length (without i m) ≤ length m
length-without i [] = omega arith
length-without i (c ∷ cs) = ground (arith, length-without i cs)

length-without_less :
    (i : ℕ) (m : List ChunkRecord) → present (row_of i m) ≡ true → length (without i m) < length m
unfolding row_of
length-without_less i [] h = cc
length-without_less i (c ∷ cs) h = ground (arith, length-without i cs, length-without_less i cs)

-- Rows of `n` different parts are `n` rows at least.
length-IsComplete : (n : ℕ) (m : List ChunkRecord) → IsComplete n m → n ≤ length m
length-IsComplete zero m c = omega arith
length-IsComplete (suc n) m c =
    let less : length (without n m) < length m = length-without_less n m (c n (omega arith)) in
    let rest : n ≤ length (without n m) = length-IsComplete n (without n m) (λ i h.
      (let apart : n ≢ i = λ e. omega (arith, e, h) in
        rw (row_of-without n i m apart) (c i (omega (arith, h))))) in
    omega arith

row_of-index :
    (i : ℕ) (m : List ChunkRecord) (c : ChunkRecord) → row_of i m ≡ some c → c.chunk_index ≡ i
unfolding row_of
row_of-index i [] c h = cc
row_of-index i (d ∷ m) c h = ground (arith, h, row_of-index i m c)

row_of-IsWithin :
    (n i : ℕ) (rows : List ChunkRecord) → IsWithin n rows → n ≤ i → row_of i rows ≡ none
unfolding row_of
row_of-IsWithin n i [] w h = refl
row_of-IsWithin n i (c ∷ cs) (small, w) h = ground (arith, small, row_of-IsWithin n i cs w h)

in_order-none :
    (m : List ChunkRecord) (i k : ℕ) → ((j : ℕ) → i ≤ j → row_of j m ≡ none) → in_order m i k ≡ []
unfolding in_order
in_order-none m i zero h = refl
in_order-none m i (suc k) h =
    rw (in_order, h i (omega arith)) (in_order-none m (suc i) k (λ j l. h j (omega (arith, l))))

module _ {W : Type 0} (api : DiscordApi W) (aead : Aead) (file_id : Text) (key : List ℕ)
    (pieces : ℕ → List ℕ) where
  row_of-serves :
      (rows : List ChunkRecord) (i : ℕ) (c : ChunkRecord) (w : W) (s : Store)
      → IsServed api aead file_id key pieces rows
      → row_of i rows ≡ some c
      → (fetch_single_chunk api aead file_id c key w s).0 ≡ ok (pieces c.chunk_index)
  unfolding row_of
  row_of-serves [] i c w s served found = absurd (cc)
  row_of-serves (d ∷ ds) i c w s (serves, served) found = elim (Bool-cases (d.chunk_index == i)) [
    | inl here ↦
        let h : some d ≡ some c = rw here at found in
        let same : d ≡ c = cc in rw (sym same) (serves w s)
    | inr other ↦ row_of-serves ds i c w s served (rw other at found)
  ]

  -- `L` lists the parts from part `i` on, `d` of them.
  abbrev IsListing : ℕ → ℕ → List ChunkRecord → Type 0
  IsListing i d l =
      HasSlots whole_mode i l
      × IsDistinct l
      × IsServed api aead file_id key pieces l
      × (render_all whole_mode pieces l ≡ concat pieces i d)
      × (length l ≡ d)
      × ((j : ℕ) → holds j l ≡ true → i ≤ j)

  in_order-IsListing :
      (rows m : List ChunkRecord) (n i d k : ℕ)
      → i + d ≡ n
      → d ≤ k
      → ((j : ℕ) → row_of j m ≡ row_of j rows)
      → IsWithin n rows
      → IsComplete n rows
      → IsServed api aead file_id key pieces rows
      → IsListing i d (in_order m i k)
  unfolding in_order
  in_order-IsListing rows m n i zero k sum short same w c served =
      let none_left : in_order m i k ≡ [] =
        in_order-none m i k (λ j h. same j ∙ row_of-IsWithin n j rows w (omega (arith, sum, h))) in
      rw none_left (tt, tt, tt, refl, refl, λ j h. absurd (cc))
  in_order-IsListing rows m n i (suc d) zero sum short same w c served = absurd (omega arith)
  in_order-IsListing rows m n i (suc d) (suc k) sum short same w c served =
      elim (Option-cases (row_of i rows)) [
        | inl missing ↦ absurd (
            let h : present (row_of i rows) ≡ true = c i (omega arith) in
            let h' : present {A = ChunkRecord} none ≡ true = rw missing at h in cc)
        | inr (ch, found) ↦
            let (slots, distinct, served', all, count, least) =
              in_order-IsListing rows m n (suc i) d k (omega (arith, sum)) (omega (arith, short))
                same w c served in
            let index : ch.chunk_index ≡ i = row_of-index i rows ch found in
            let new : holds ch.chunk_index (in_order m (suc i) k) ≡ false =
              elim (Bool-cases (holds ch.chunk_index (in_order m (suc i) k))) [
                | inl there ↦ absurd (omega (arith, least ch.chunk_index there, index))
                | inr gone ↦ gone
              ] in
            rw (in_order, same i, found)
              (
                (sym index, slots),
                (new, distinct),
                ((λ v s. row_of-serves rows i ch v s served found), served'),
                ap (λ l. pieces ch.chunk_index ++ l) all
                    ∙ ap (λ j. pieces j ++ concat pieces (suc i) d) index,
                ap suc count,
                λ j h. ground (arith, h, index, least j),
              )
      ]

  parts_in_order-IsListing :
      (rows : List ChunkRecord) (n : ℕ)
      → IsWithin n rows
      → IsComplete n rows
      → IsServed api aead file_id key pieces rows
      → IsListing 0 n (parts_in_order rows)
  unfolding parts_in_order
  parts_in_order-IsListing rows n w c served =
      let m : List ChunkRecord = (scan_rows [] 0 rows).0 in
      let same : (j : ℕ) → row_of j m ≡ row_of j rows = λ j. row_of-scan_rows j [] 0 rows in
      let complete : IsComplete n m = λ i h. (rw (same i) (c i h)) in
      in_order-IsListing rows m n 0 n (length m) (omega arith) (length-IsComplete n m complete) same
        w c served

  with_parts-streaming :
      (workers : ℕ) (e : Engine W) (parts : List ChunkRecord)
      → 1 < length parts
      → with_parts workers e parts ≡ streaming (started workers parts e)
  unfolding with_parts
  with_parts-streaming workers e [] h = absurd (omega arith)
  with_parts-streaming workers e (c ∷ []) h = absurd (omega arith)
  with_parts-streaming workers e (c ∷ d ∷ cs) h = refl

  -- With a key of 32 bytes, `StreamDownload` of a file of two parts or more starts its workers, and
  -- whatever the order in which they run, as long as the context is not cancelled and the browser takes
  -- everything: the stream does at most four steps for each part, one for each worker and one more; at
  -- every point it can go on to its end; and at its end it has returned no error and has sent the bytes of
  -- the file's `n` parts in their order. This holds where the catalog returns the file, which is no
  -- folder, and completed rows that are of these parts and leave none out, each row can be fetched and
  -- gives its part, and what is cached of the file is its parts.
  pub open_stream-completes :
      (workers n : ℕ) (e : Engine W) (f : FileRecord) (s1 s2 : Store) (rows : List ChunkRecord)
      (steps : ℕ) (t : Stream W)
      → length key ≡ key_length
      → get_file file_id e.store ≡ (ok f, s1)
      → f.is_dir ≡ false
      → get_chunks_for_file file_id s1 ≡ (ok rows, s2)
      → 1 < n
      → IsWithin n rows
      → IsComplete n rows
      → IsServed api aead file_id key pieces rows
      → IsSound file_id pieces e.cache
      → let start = started workers (parts_in_order rows) (record e { store = s2 }) in
        Run api aead whole_mode file_id key start steps t
        → (open_stream workers file_id key e ≡ streaming start)
          × (steps ≤ 4 * n + worker_limit workers n + 1)
          × ((k : ℕ) × (u : Stream W) × Run api aead whole_mode file_id key t k u
              × (u.ended ≡ some (ok tt))
              × (u.out ≡ concat pieces 0 n))
  unfolding open_stream with_file with_rows
  open_stream-completes workers n e f s1 s2 [] steps t k file plain chunks some_parts w c served
        sound r =
      absurd (let h : present (row_of 0 []) ≡ true = c 0 (omega arith) in unfold row_of in cc)
  open_stream-completes workers n e f s1 s2 (row ∷ rows) steps t k file plain chunks some_parts w c
        served sound r =
      let parts : List ChunkRecord = parts_in_order (row ∷ rows) in
      let (slots, distinct, served', all, count, least) =
        parts_in_order-IsListing (row ∷ rows) n w c served in
      let (bound, rest) =
        Run-completes api aead whole_mode file_id key pieces workers parts (record e { store = s2 })
          steps t served' sound slots distinct r in
      let unlocked : (length key == key_length) ≡ true = ground arith in
      let many : 1 < length parts = omega (arith, count, some_parts) in
      (
        rw (unlocked, file, plain, chunks)
            (with_parts-streaming workers (record e { store = s2 }) parts many),
        rw count at bound,
        rw all at rest,
      )
