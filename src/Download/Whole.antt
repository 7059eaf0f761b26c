-- ===== src/Download/Whole.antt =====
-- internal/downloader/downloader.go: `GetFileBytes` returns the bytes of the file.
use discord_free_cloud.Base.{
  ℕ, zero, suc, ◌+◌, ◌≤◌, ◌<◌, ◌≡◌, refl, sym, ap, ◌∙◌, List, [], ◌∷◌, ◌++◌, append-nil,
  append_assoc, true, some, none, ok, length, leb, ◌==◌, if◌then◌else◌, Text, arith, Bool-cases,
  Option-cases, inl, inr,
}
use discord_free_cloud.Aead.{Aead, key_length}
use discord_free_cloud.Cache.Valid.{present}
use discord_free_cloud.Db.{FileRecord, ChunkRecord, Store}
use discord_free_cloud.Db.Files.{get_file}
use discord_free_cloud.Db.Chunks.{get_chunks_for_file}
use discord_free_cloud.Fetch.{DiscordApi, Engine, fetch_single_chunk, fetch_chunk}
use discord_free_cloud.Fetch.Sound.{IsSound, fetch_chunk-IsSound}
use discord_free_cloud.Download.{
  row_of, scan_rows, append_parts, parts_of, bytes_of, get_file_bytes,
}

row_of-append :
    (i : ℕ) (xs ys : List ChunkRecord)
    → row_of i (xs ++ ys) ≡ (if present (row_of i xs) then row_of i xs else row_of i ys)
unfolding row_of
row_of-append i [] ys = refl
row_of-append i (x ∷ xs) ys = ground (arith, row_of-append i xs ys)

-- A row whose index has been seen adds nothing to the map.
row_of-known :
    (i : ℕ) (m cs : List ChunkRecord) (c d : ChunkRecord)
    → row_of c.chunk_index m ≡ some d
    → row_of i (m ++ (c ∷ cs)) ≡ row_of i (m ++ cs)
unfolding row_of
row_of-known i m cs c d known = elim (Bool-cases (c.chunk_index == i)) [
  | inl here ↦
      let e : c.chunk_index ≡ i = ground arith in
      let seen : row_of i m ≡ some d = rw (sym e) known in
      rw (row_of-append i m (c ∷ cs), row_of-append i m cs, seen)
  | inr other ↦ rw (row_of-append i m (c ∷ cs), row_of-append i m cs, other)
]

pub row_of-scan_rows :
    (i : ℕ) (m : List ChunkRecord) (n : ℕ) (rows : List ChunkRecord)
    → row_of i (scan_rows m n rows).0 ≡ row_of i (m ++ rows)
unfolding scan_rows
row_of-scan_rows i m n [] = ap (row_of i) (sym (append-nil m))
row_of-scan_rows i m n (c ∷ cs) = elim (Option-cases (row_of c.chunk_index m)) [
  | inr (d, known) ↦
      rw (scan_rows, known, row_of-known i m cs c d known) (row_of-scan_rows i m n cs)
  | inl fresh ↦
      rw (scan_rows, fresh)
        (row_of-scan_rows i (m ++ (c ∷ [])) _ cs ∙ ap (row_of i) (append_assoc m (c ∷ []) cs))
]

-- an index that is in the map is below the bound
abbrev IsBounded : List ChunkRecord → ℕ → Type 0
IsBounded m n = (i : ℕ) → present (row_of i m) ≡ true → i < n

add-IsBounded :
    (m : List ChunkRecord) (n : ℕ) (c : ChunkRecord)
    → IsBounded m n
    → IsBounded (m ++ (c ∷ [])) (if leb n c.chunk_index then c.chunk_index + 1 else n)
unfolding row_of
add-IsBounded m n c b i p =
    let p' : present (if present (row_of i m) then row_of i m else row_of i (c ∷ [])) ≡ true =
      rw (row_of-append i m (c ∷ [])) at p in
    ground (arith, b i, p')

scan_rows-IsBounded :
    (m : List ChunkRecord) (n : ℕ) (rows : List ChunkRecord)
    → IsBounded m n
    → IsBounded (scan_rows m n rows).0 (scan_rows m n rows).1
unfolding scan_rows
scan_rows-IsBounded m n [] b i p = b i p
scan_rows-IsBounded m n (c ∷ cs) b i p = elim (Option-cases (row_of c.chunk_index m)) [
  | inr (d, known) ↦
      rw (scan_rows, known) (scan_rows-IsBounded m n cs b i (rw (scan_rows, known) at p))
  | inl fresh ↦
      rw (scan_rows, fresh)
        (scan_rows-IsBounded (m ++ (c ∷ [])) _ cs (add-IsBounded m n c b) i
          (rw (scan_rows, fresh) at p))
]

-- every row is of one of `n` parts
abbrev pub IsWithin : ℕ → List ChunkRecord → Type 0
IsWithin n [] = Unit {0}
IsWithin n (c ∷ cs) = (c.chunk_index < n) × IsWithin n cs

scan_rows_least :
    (m : List ChunkRecord) (n bound : ℕ) (rows : List ChunkRecord)
    → n ≤ bound
    → IsWithin bound rows
    → (scan_rows m n rows).1 ≤ bound
unfolding scan_rows
scan_rows_least m n bound [] h w = h
scan_rows_least m n bound (c ∷ cs) h w = elim (Option-cases (row_of c.chunk_index m)) [
  | inr (d, known) ↦ rw (scan_rows, known) (scan_rows_least m n bound cs h w.1)
  | inl fresh ↦
      rw (scan_rows, fresh) (scan_rows_least (m ++ (c ∷ [])) _ bound cs (ground arith) w.1)
]

-- The bytes of the parts from part `i` on, `n` of them.
abbrev pub concat : (ℕ → List ℕ) → ℕ → ℕ → List ℕ
concat pieces i zero = []
concat pieces i (suc n) = pieces i ++ concat pieces (suc i) n

-- every part is in a row
abbrev pub IsComplete : ℕ → List ChunkRecord → Type 0
IsComplete n rows = (i : ℕ) → i < n → present (row_of i rows) ≡ true

scan_rows_count :
    (n : ℕ) (rows : List ChunkRecord)
    → IsWithin n rows
    → IsComplete n rows
    → (scan_rows [] 0 rows).1 ≡ n
scan_rows_count zero rows w c =
    let most : (scan_rows [] 0 rows).1 ≤ 0 = scan_rows_least [] 0 0 rows (omega arith) w in
    omega arith
scan_rows_count (suc n) rows w c =
    let most : (scan_rows [] 0 rows).1 ≤ suc n =
      scan_rows_least [] 0 (suc n) rows (omega arith) w in
    let seen : present (row_of n (scan_rows [] 0 rows).0) ≡ true =
      rw (row_of-scan_rows n [] 0 rows) (c n (omega arith)) in
    let least : n < (scan_rows [] 0 rows).1 =
      scan_rows-IsBounded [] 0 rows (unfold row_of in λ i p. absurd (cc)) n seen in
    omega arith

module _ {W : Type 0} (api : DiscordApi W) (aead : Aead) where
  -- Each row of a list can be fetched, whatever the network and the catalog have been through, and
  -- gives its part.
  abbrev pub IsServed : Text → List ℕ → (ℕ → List ℕ) → List ChunkRecord → Type 0
  IsServed file_id key pieces [] = Unit {0}
  IsServed file_id key pieces (c ∷ cs) =
      ((w : W) (s : Store)
        → (fetch_single_chunk api aead file_id c key w s).0 ≡ ok (pieces c.chunk_index))
      × IsServed file_id key pieces cs

  row_of-IsServed :
      (file_id : Text) (key : List ℕ) (pieces : ℕ → List ℕ) (rows : List ChunkRecord) (i : ℕ)
      (ch : ChunkRecord) (e : Engine W)
      → IsServed file_id key pieces rows
      → IsSound file_id pieces e.cache
      → row_of i rows ≡ some ch
      → ((fetch_chunk api aead file_id ch key e).0 ≡ ok (pieces i))
        × IsSound file_id pieces (fetch_chunk api aead file_id ch key e).1.cache
  unfolding row_of
  row_of-IsServed file_id key pieces [] i ch e served sound found = absurd (cc)
  row_of-IsServed file_id key pieces (c ∷ cs) i ch e (serves, served) sound found =
      elim (Bool-cases (c.chunk_index == i)) [
        | inl here ↦
            let index : c.chunk_index ≡ i = ground arith in
            let h : some c ≡ some ch = rw here at found in
            let same : c ≡ ch = cc in
            let (got, sound') = fetch_chunk-IsSound api aead file_id c key pieces e sound serves in
            rw (sym same) (got ∙ ap (λ (j : ℕ). ok (pieces j)) index, sound')
        | inr other ↦ row_of-IsServed file_id key pieces cs i ch e served sound (rw other at found)
      ]

  append_parts-concat :
      (file_id : Text) (key : List ℕ) (pieces : ℕ → List ℕ) (rows m : List ChunkRecord) (i n : ℕ)
      (out : List ℕ) (e : Engine W)
      → IsServed file_id key pieces rows
      → IsSound file_id pieces e.cache
      → ((j : ℕ) → row_of j m ≡ row_of j rows)
      → ((j : ℕ) → j < i + n → present (row_of j rows) ≡ true)
      → (append_parts api aead file_id key m i n out e).0 ≡ ok (out ++ concat pieces i n)
  unfolding append_parts
  append_parts-concat file_id key pieces rows m i zero out e served sound same there =
      ap ok (sym (append-nil out))
  append_parts-concat file_id key pieces rows m i (suc n) out e served sound same there =
      elim (Option-cases (row_of i rows)) [
        | inl missing ↦ absurd (
            let h : present (row_of i rows) ≡ true = there i (omega arith) in
            let h' : present {A = ChunkRecord} none ≡ true = rw missing at h in cc)
        | inr (ch, found) ↦
            let (got, sound') = row_of-IsServed file_id key pieces rows i ch e served sound found in
            rw (append_parts, same i, found, got)
              (append_parts-concat file_id key pieces rows m (suc i) n (out ++ pieces i) _ served
                  sound' same (λ j h. there j (omega (arith, h)))
                ∙ ap ok (append_assoc out (pieces i) (concat pieces (suc i) n)))
      ]

  -- With a key of 32 bytes `GetFileBytes` returns the bytes of the file's `n` parts in their order,
  -- when there is a part, the catalog returns a row of the file and completed rows that are of
  -- these parts and leave none out, each row can be fetched and gives its part, and what is cached
  -- of the file is its parts: however many copies the parts have, and in whatever order the catalog
  -- lists the rows.
  pub get_file_bytes-concat :
      (file_id : Text) (key : List ℕ) (pieces : ℕ → List ℕ) (n : ℕ) (e : Engine W) (f : FileRecord)
      (s1 s2 : Store) (rows : List ChunkRecord)
      → length key ≡ key_length
      → get_file file_id e.store ≡ (ok f, s1)
      → get_chunks_for_file file_id s1 ≡ (ok rows, s2)
      → 0 < n
      → IsWithin n rows
      → IsComplete n rows
      → IsServed file_id key pieces rows
      → IsSound file_id pieces e.cache
      → (get_file_bytes api aead file_id key e).0 ≡ ok (concat pieces 0 n)
  unfolding get_file_bytes bytes_of parts_of
  get_file_bytes-concat file_id key pieces n e f s1 s2 [] k file chunks some_part w c served sound =
      absurd (let h : present (row_of 0 []) ≡ true = c 0 some_part in unfold row_of in cc)
  get_file_bytes-concat file_id key pieces n e f s1 s2 (r ∷ rows) k file chunks some_part w c served
        sound =
      let unlocked : (length key == key_length) ≡ true = ground arith in
      rw (unlocked, file, chunks, scan_rows_count n (r ∷ rows) w c)
        (append_parts-concat file_id key pieces (r ∷ rows) (scan_rows [] 0 (r ∷ rows)).0 0 n [] _
          served sound (λ j. row_of-scan_rows j [] 0 (r ∷ rows)) (λ j h. c j (omega (arith, h))))
