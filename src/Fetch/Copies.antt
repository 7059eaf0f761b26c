-- ===== src/Fetch/Copies.antt =====
-- internal/downloader/downloader.go: `fetchChunk`, its cache and its other copies.
use discord_free_cloud.Base.{
  ℕ, ◌<◌, ◌≡◌, refl, sym, ap, ◌∙◌, List, [], ◌∷◌, ◌++◌, true, false, Option, some, none, Result, ok,
  err, length, ◌==◌, ==_iff, arith, Text, label, bytes_eq_refl, Bool-cases, inl, inr, Option-cases,
}
use discord_free_cloud.Aead.{Aead}
use discord_free_cloud.Db.{ChunkRecord, Store}
use discord_free_cloud.Db.Chunks.{get_chunks_for_file}
use discord_free_cloud.Cache.{Cache, get_cached_chunk, put_cached_chunk}
use discord_free_cloud.Cache.Fifo.{get_cached_chunk-put_cached_chunk}
use discord_free_cloud.Fetch.{
  DiscordApi, Engine, FetchError, fetch_single_chunk, is_alternative, taken, try_copies,
  fetch_copies, with_first, or_copies, remember, cached_or, fetch_chunk,
}
use discord_free_cloud.Fetch.Single.{Result-cases}
use discord_free_cloud.Fetch.Cached.{IsPart, fetch_single_chunk-IsPart}

module _ {W : Type 0} (api : DiscordApi W) (aead : Aead) where
  -- A copy that can be fetched whatever the network and the catalog have been through.
  abbrev pub IsFetchable : Text → ChunkRecord → List ℕ → Type 0
  IsFetchable file_id alt key =
      (w : W) (s : Store)
      → (b : List ℕ) × ((fetch_single_chunk api aead file_id alt key w s).0 ≡ ok b)

  -- Whenever the row can be fetched, it gives the piece.
  abbrev pub GivesOnly : Text → List ℕ → List ℕ → ChunkRecord → Type 0
  GivesOnly file_id key piece c =
      (w : W) (s : Store) (b : List ℕ)
      → (fetch_single_chunk api aead file_id c key w s).0 ≡ ok b
      → b ≡ piece

  -- The rows of the index give only the piece; those of other indices may give anything.
  abbrev pub AllGive : Text → List ℕ → List ℕ → ℕ → List ChunkRecord → Type 0
  AllGive file_id key piece i [] = Unit {0}
  AllGive file_id key piece i (c ∷ cs) =
      (c.chunk_index ≡ i → GivesOnly file_id key piece c) × AllGive file_id key piece i cs

  is_alternative-index :
      (chunk alt : ChunkRecord)
      → is_alternative chunk alt ≡ true
      → alt.chunk_index ≡ chunk.chunk_index
  unfolding is_alternative
  is_alternative-index chunk alt h = ground (arith, h, ==_iff alt.chunk_index chunk.chunk_index)

  taken-some :
      (t : Result FetchError (List ℕ) × W × Store) (next : Option (List ℕ) × W × Store) (b : List ℕ)
      → t.0 ≡ ok b
      → IsPart api aead t.0
      → (taken api aead t next).0 ≡ some b
  unfolding taken
  taken-some (ok b', w, s) next b e long =
      let some_bytes : (length b' == 0) ≡ false = ground arith in rw some_bytes (cc)
  taken-some (err f, w, s) next b e long = cc

  taken-any :
      (t : Result FetchError (List ℕ) × W × Store) (next : Option (List ℕ) × W × Store) (b : List ℕ)
      → ((c : List ℕ) → t.0 ≡ ok c → c ≡ b)
      → next.0 ≡ some b
      → (taken api aead t next).0 ≡ some b
  unfolding taken
  taken-any (ok b', w, s) next b gives e = elim (Bool-cases (length b' == 0)) [
    | inl empty ↦ rw empty e
    | inr some_bytes ↦ rw some_bytes (ap some (gives b' refl))
  ]
  taken-any (err f, w, s) next b gives e = e

  try_copies-some :
      (file_id : Text) (chunk alt : ChunkRecord) (key piece : List ℕ)
      (front back : List ChunkRecord) (w : W) (s : Store)
      → is_alternative chunk alt ≡ true
      → IsFetchable file_id alt key
      → AllGive file_id key piece chunk.chunk_index (front ++ (alt ∷ back))
      → (try_copies api aead file_id chunk key (front ++ (alt ∷ back)) w s).0 ≡ some piece
  unfolding try_copies
  try_copies-some file_id chunk alt key piece [] back w s is_alt fetchable (gives, others) =
      let t : Result FetchError (List ℕ) × W × Store =
        fetch_single_chunk api aead file_id alt key w s in
      let (b, got) = fetchable w s in
      let same : b ≡ piece = gives (is_alternative-index chunk alt is_alt) w s b got in
      rw is_alt (
        taken-some t (try_copies api aead file_id chunk key back t.1 t.2) piece (got ∙ ap ok same)
          (fetch_single_chunk-IsPart api aead file_id alt key w s))
  try_copies-some file_id chunk alt key piece (c ∷ front) back w s is_alt fetchable
        (gives, others) =
      let t : Result FetchError (List ℕ) × W × Store =
        fetch_single_chunk api aead file_id c key w s in
      elim (Bool-cases (is_alternative chunk c)) [
        | inl other ↦ rw other (
            taken-any t (try_copies api aead file_id chunk key (front ++ (alt ∷ back)) t.1 t.2)
              piece (gives (is_alternative-index chunk c other) w s)
              (try_copies-some file_id chunk alt key piece front back t.1 t.2 is_alt fetchable
                others))
        | inr same ↦
            rw same
              (try_copies-some file_id chunk alt key piece front back w s is_alt fetchable others)
      ]

  with_first-some :
      (first : Result FetchError (List ℕ)) (t : Option (List ℕ) × W × Store) (b : List ℕ)
      → t.0 ≡ some b
      → (with_first api aead first t).0 ≡ ok b
  unfolding with_first
  with_first-some first (none, w, s) b e = cc
  with_first-some first (some b', w, s) b e = cc

  or_copies-ok :
      (file_id : Text) (chunk : ChunkRecord) (key b : List ℕ)
      (t : Result FetchError (List ℕ) × W × Store)
      → t.0 ≡ ok b
      → 0 < length b
      → (or_copies api aead file_id chunk key t).0 ≡ ok b
  unfolding or_copies
  or_copies-ok file_id chunk key b (ok b', w, s) e long =
      let same : b' ≡ b = cc in
      let some_bytes : (length b == 0) ≡ false = ground arith in rw (same, some_bytes)
  or_copies-ok file_id chunk key b (err f, w, s) e long = cc

  or_copies-err :
      (file_id : Text) (chunk alt : ChunkRecord) (key piece : List ℕ)
      (front back : List ChunkRecord) (f : FetchError) (t : Result FetchError (List ℕ) × W × Store)
      (s' : Store)
      → t.0 ≡ err f
      → get_chunks_for_file file_id t.2 ≡ (ok (front ++ (alt ∷ back)), s')
      → is_alternative chunk alt ≡ true
      → IsFetchable file_id alt key
      → AllGive file_id key piece chunk.chunk_index (front ++ (alt ∷ back))
      → (or_copies api aead file_id chunk key t).0 ≡ ok piece
  unfolding or_copies fetch_copies
  or_copies-err file_id chunk alt key piece front back f (ok b, w, s) s' e rows is_alt fetchable
        give =
      absurd (cc)
  or_copies-err file_id chunk alt key piece front back f (err g, w, s) s' e rows is_alt fetchable
        give =
      rw rows (
        with_first-some (err g) _ piece
          (try_copies-some file_id chunk alt key piece front back w s' is_alt fetchable give))

  remember-fst :
      (cache_key : Text) (c : Cache) (t : Result FetchError (List ℕ) × W × Store)
      → (remember api aead cache_key c t).0 ≡ t.0
  unfolding remember
  remember-fst cache_key c (ok b, w, s) = refl
  remember-fst cache_key c (err f, w, s) = refl

  -- If a part is not cached, the catalog lists the rows of the file after the attempt on the part
  -- itself, and among them is another completed row of its index that can be fetched whatever the
  -- network and the catalog have been through, then `fetchChunk` returns the bytes of the part, if these
  -- are all that the part and the rows of its index give when they can be fetched, whatever the rows of
  -- other indices give.
  pub fetch_chunk-copies :
      (file_id : Text) (chunk alt : ChunkRecord) (key piece : List ℕ)
      (front back : List ChunkRecord) (e : Engine W) (s' : Store)
      → get_cached_chunk e.cache (label file_id chunk.chunk_index) ≡ none
      → get_chunks_for_file file_id (fetch_single_chunk api aead file_id chunk key e.net e.store).2
        ≡ (ok (front ++ (alt ∷ back)), s')
      → is_alternative chunk alt ≡ true
      → IsFetchable file_id alt key
      → GivesOnly file_id key piece chunk
      → AllGive file_id key piece chunk.chunk_index (front ++ (alt ∷ back))
      → (fetch_chunk api aead file_id chunk key e).0 ≡ ok piece
  unfolding fetch_chunk cached_or
  fetch_chunk-copies file_id chunk alt key piece front back e s' missing rows is_alt fetchable own
        give =
      let t : Result FetchError (List ℕ) × W × Store =
        fetch_single_chunk api aead file_id chunk key e.net e.store in
      elim (Result-cases t.0) [
        | inl (b, got) ↦
            let long : 0 < length b =
              let p : IsPart api aead t.0 =
                fetch_single_chunk-IsPart api aead file_id chunk key e.net e.store in
              rw got at p in
            rw missing (
              remember-fst _ e.cache _
              ∙ or_copies-ok file_id chunk key b t got long
              ∙ ap ok (own e.net e.store b got))
        | inr (f, failed) ↦ rw missing (
            remember-fst _ e.cache _
            ∙ or_copies-err file_id chunk alt key piece front back f t s' failed rows is_alt
                fetchable give)
      ]

  -- A part that can be fetched itself is what `fetchChunk` returns, if it is not cached.
  pub fetch_chunk-first :
      (file_id : Text) (chunk : ChunkRecord) (key b : List ℕ) (e : Engine W)
      → get_cached_chunk e.cache (label file_id chunk.chunk_index) ≡ none
      → (fetch_single_chunk api aead file_id chunk key e.net e.store).0 ≡ ok b
      → (fetch_chunk api aead file_id chunk key e).0 ≡ ok b
  unfolding fetch_chunk cached_or
  fetch_chunk-first file_id chunk key b e missing got =
      let t : Result FetchError (List ℕ) × W × Store =
        fetch_single_chunk api aead file_id chunk key e.net e.store in
      let p : IsPart api aead t.0 =
        fetch_single_chunk-IsPart api aead file_id chunk key e.net e.store in
      let long : 0 < length b = rw got at p in
      rw missing (remember-fst _ e.cache _ ∙ or_copies-ok file_id chunk key b t got long)

  pub remember-ok :
      (cache_key : Text) (c : Cache) (t : Result FetchError (List ℕ) × W × Store) (b : List ℕ)
      (e1 : Engine W)
      → remember api aead cache_key c t ≡ (ok b, e1)
      → e1.cache ≡ put_cached_chunk c cache_key b
  unfolding remember
  remember-ok cache_key c (ok b', w, s) b e1 h =
      let same : b' ≡ b = cc in
      let engine : record { net = w; store = s; cache = put_cached_chunk c cache_key b' } ≡ e1 =
        ap (λ (t : Result FetchError (List ℕ) × Engine W). t.1) h in
      sym (ap (λ (g : Engine W). g.cache) engine) ∙ ap (put_cached_chunk c cache_key) same
  remember-ok cache_key c (err f, w, s) b e1 h = absurd (cc)

  -- Bytes that `fetchChunk` has returned for a part, if there are any, are returned again with no
  -- call of the network or the catalog: the engine is left as it is.
  pub fetch_chunk_again :
      (file_id : Text) (chunk : ChunkRecord) (key b : List ℕ) (e e1 : Engine W)
      → 0 < length b
      → fetch_chunk api aead file_id chunk key e ≡ (ok b, e1)
      → fetch_chunk api aead file_id chunk key e1 ≡ (ok b, e1)
  unfolding fetch_chunk cached_or
  fetch_chunk_again file_id chunk key b e e1 long h =
      let l : Text = label file_id chunk.chunk_index in
      let t : Result FetchError (List ℕ) × W × Store =
        or_copies api aead file_id chunk key
          (fetch_single_chunk api aead file_id chunk key e.net e.store) in
      elim (Option-cases (get_cached_chunk e.cache l)) [
        | inr (b', found) ↦
            let h' : (ok b', e) ≡ (ok b, e1) = rw found at h in
            let same : b' ≡ b = cc in
            let left : e ≡ e1 = ap (λ (r : Result FetchError (List ℕ) × Engine W). r.1) h' in
            let again : get_cached_chunk e1.cache l ≡ some b =
              ap (λ (g : Engine W). get_cached_chunk g.cache l) (sym left) ∙ found ∙ ap some same in
            rw again
        | inl missing ↦
            let stored : e1.cache ≡ put_cached_chunk e.cache l b =
              remember-ok l e.cache t b e1 (rw missing at h) in
            let again : get_cached_chunk e1.cache l ≡ some b =
              ap (λ (c : Cache). get_cached_chunk c l) stored
              ∙ (get_cached_chunk-put_cached_chunk e.cache l l b long ∙ rw (bytes_eq_refl l)) in
            rw again
      ]
