-- ===== src/Fetch/Cached.antt =====
-- internal/downloader/downloader.go: parts that share their bytes with an older upload, the second
-- fetch of a part, and the fetch of a part by its other copies.
use discord_free_cloud.Base.{
  ℕ, ◌+◌, ◌^◌, ◌<◌, ◌≡◌, ◌≢◌, refl, ap, ◌∙◌, List, [], ◌∷◌, ◌++◌, ◌||◌, Bool, true, false, Option,
  some, none, Result, ok, err, length, ◌==◌, if◌then◌else◌, arith, Text, label, bytes_eq,
  bytes_eq_refl, has, has-append, Bool-cases, inl, inr, not, ◌&&◌, codes,
}
use discord_free_cloud.Png.{wrap_png}
use discord_free_cloud.Aead.{Aead, is_aes_key, nonce_size}
use discord_free_cloud.Aead.RoundTrip.{sealed}
use discord_free_cloud.Db.{ChunkRecord, Store, query}
use discord_free_cloud.Db.Chunks.{
  select, insert_by, order_by, created_desc, is_copy_of, find_chunks_by_hash,
}
use discord_free_cloud.Fetch.{
  DiscordApi, FetchError, hash_candidates, candidates, originals, found_rows, fetch_single_chunk,
  unlock_download,
}
use discord_free_cloud.Fetch.Single.{downloaded, fetch_single_chunk-sealed, unlock_ok}

-- Which labels the rows of a hash give does not depend on their order.
has-insert_by :
    (before : ChunkRecord → ChunkRecord → Bool) (l : Text) (c : ChunkRecord)
    (rows : List ChunkRecord)
    → has l (hash_candidates (insert_by before c rows))
      ≡ (bytes_eq (label c.file_id c.chunk_index) l || has l (hash_candidates rows))
unfolding insert_by hash_candidates has
has-insert_by before l c [] = refl
has-insert_by before l c (d ∷ ds) = ground (arith, has-insert_by before l c ds)

has-order_by :
    (before : ChunkRecord → ChunkRecord → Bool) (l : Text) (rows : List ChunkRecord)
    → has l (hash_candidates (order_by before rows)) ≡ has l (hash_candidates rows)
unfolding order_by hash_candidates has
has-order_by before l [] = refl
has-order_by before l (c ∷ cs) =
    has-insert_by before l c (order_by before cs)
    ∙ ap (λ (b : Bool). bytes_eq (label c.file_id c.chunk_index) l || b) (has-order_by before l cs)

has-select :
    (p : ChunkRecord → Bool) (front back : List ChunkRecord) (o : ChunkRecord)
    → p o ≡ true
    → has (label o.file_id o.chunk_index) (hash_candidates (select p (front ++ (o ∷ back)))) ≡ true
unfolding select hash_candidates has
has-select p [] back o h = rw (h, bytes_eq_refl (label o.file_id o.chunk_index))
has-select p (c ∷ front) back o h = ground (arith, has-select p front back o h)

-- the connection serves every statement
abbrev pub IsOnline : Store → Type 0
IsOnline s = s.faults ≡ []

find_chunks_by_hash-rows :
    (sha : Text) (s : Store)
    → IsOnline s
    → bytes_eq sha [] ≡ false
    → found_rows (find_chunks_by_hash sha s).0
      ≡ order_by created_desc (select (is_copy_of sha) s.chunks)
unfolding find_chunks_by_hash query found_rows bytes_eq
find_chunks_by_hash-rows [] s online e = cc
find_chunks_by_hash-rows (b ∷ sha) s online e = rw online

candidates-has :
    (file_id : Text) (chunk : ChunkRecord) (origs : List ChunkRecord) (l : Text)
    → has l (hash_candidates origs) ≡ true
    → has l (candidates file_id chunk origs) ≡ true
unfolding candidates has
candidates-has file_id chunk origs l h =
    let foreign : List Text =
      if not (bytes_eq chunk.file_id []) && not (bytes_eq chunk.file_id file_id)
      then label chunk.file_id chunk.chunk_index ∷ []
      else [] in
    let rest : List Text =
      codes "discord_chunk_v1" ∷ label (codes "chunk") chunk.chunk_index ∷ [] ∷ [] in
    ground (
      arith,
      has-append l foreign (hash_candidates origs ++ rest),
      has-append l (hash_candidates origs) rest,
      h,
    )

-- The label of a stored copy of the same bytes is among the candidates of a part.
has-candidates_copy :
    (file_id : Text) (chunk o : ChunkRecord) (s : Store) (front back : List ChunkRecord)
    → IsOnline s
    → s.chunks ≡ front ++ (o ∷ back)
    → bytes_eq chunk.sha256 [] ≡ false
    → is_copy_of chunk.sha256 o ≡ true
    → has (label o.file_id o.chunk_index) (candidates file_id chunk (originals chunk s).0) ≡ true
unfolding originals
has-candidates_copy file_id chunk o s front back online rows some_hash copy =
    let l : Text = label o.file_id o.chunk_index in
    candidates-has file_id chunk (originals chunk s).0 l (
      rw (some_hash, find_chunks_by_hash-rows chunk.sha256 s online some_hash)
        (has-order_by created_desc l (select (is_copy_of chunk.sha256) s.chunks)
          ∙ rw rows (has-select (is_copy_of chunk.sha256) front back o copy)))

module _ {W : Type 0} (api : DiscordApi W) (aead : Aead) where
  -- A part with a hash that reuses the bytes of an older part `o` (same hash, still recorded as
  -- completed and with a message, in a catalog without faults to come) comes back although it was
  -- sealed under the label of `o`, which the part does not name: its download gives the container,
  -- the key is valid, and the part is not empty and fits the container.
  pub fetch_single_chunk-copy :
      (file_id : Text) (chunk o : ChunkRecord) (w : W) (s : Store) (front back : List ChunkRecord)
      (key nonce plaintext : List ℕ)
      → (k : is_aes_key key ≡ true) → (n12 : length nonce ≡ nonce_size) → 0 < length plaintext
      → length plaintext + 28 < 2 ^ 32
      → let after = downloaded api aead chunk w s in
        IsOnline after.2
        → after.2.chunks ≡ front ++ (o ∷ back)
        → bytes_eq chunk.sha256 [] ≡ false
        → is_copy_of chunk.sha256 o ≡ true
        → after.0
          ≡ some (wrap_png (sealed aead key nonce plaintext (label o.file_id o.chunk_index) n12))
        → (fetch_single_chunk api aead file_id chunk key w s).0 ≡ ok plaintext
  fetch_single_chunk-copy file_id chunk o w s front back key nonce plaintext k n12 h fits online
        rows some_hash copy got =
      fetch_single_chunk-sealed api aead file_id chunk w s key nonce plaintext
        (label o.file_id o.chunk_index) k n12 h fits got
        (has-candidates_copy file_id chunk o (downloaded api aead chunk w s).2 front back online
          rows some_hash copy)

  -- What a fetch returns is never empty, and it never runs out of fuel.
  abbrev pub IsPart : Result FetchError (List ℕ) → Type 0
  IsPart (ok bytes) = 0 < length bytes
  IsPart (err e) = e ≢ FetchError.out_of_fuel

  unlock_download-IsPart :
      (file_id : Text) (chunk : ChunkRecord) (key : List ℕ) (t : Option (List ℕ) × W × Store)
      → IsPart (unlock_download api aead file_id chunk key t).0
  unfolding unlock_download
  unlock_download-IsPart file_id chunk key (none, w, s) = λ e. cc
  unlock_download-IsPart file_id chunk key (some enc, w, s) = elim (Bool-cases (length enc == 0)) [
    | inl empty ↦ rw empty (λ e. cc)
    | inr some_bytes ↦
        rw some_bytes
          (elim (unlock_ok aead key (candidates file_id chunk (originals chunk s).0) enc) [
            | inl (dec, e, long) ↦ rw e long
            | inr e ↦ rw e (λ f. cc)
          ])
  ]

  -- A fetch of a part returns bytes that are not empty, or an error; the error is never that of
  -- the model's fuel.
  pub fetch_single_chunk-IsPart :
      (file_id : Text) (chunk : ChunkRecord) (key : List ℕ) (w : W) (s : Store)
      → IsPart (fetch_single_chunk api aead file_id chunk key w s).0
  unfolding fetch_single_chunk
  fetch_single_chunk-IsPart file_id chunk key w s =
      unlock_download-IsPart file_id chunk key (downloaded api aead chunk w s)
