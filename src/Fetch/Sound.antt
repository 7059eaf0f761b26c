-- ===== src/Fetch/Sound.antt =====
-- internal/downloader/downloader.go: the cache holds what the parts of a file are.
use discord_free_cloud.Base.{
  ℕ, ◌<◌, ◌≡◌, sym, ap, ◌∙◌, List, some, none, Result, ok, length, if◌then◌else◌, Text, label,
  label_injective, bytes_eq, bytes_eq_iff, Bool-cases, inl, inr, Option-cases,
}
use discord_free_cloud.Aead.{Aead}
use discord_free_cloud.Db.{ChunkRecord, Store}
use discord_free_cloud.Cache.{Cache, new_cache, get_cached_chunk, put_cached_chunk}
use discord_free_cloud.Cache.Valid.{get_cached_chunk-new_cache}
use discord_free_cloud.Cache.Fifo.{get_cached_chunk-put_cached_chunk, evicts}
use discord_free_cloud.Fetch.{
  DiscordApi, Engine, FetchError, fetch_single_chunk, or_copies, remember, cached_or, fetch_chunk,
}
use discord_free_cloud.Fetch.Cached.{IsPart, fetch_single_chunk-IsPart}
use discord_free_cloud.Fetch.Copies.{fetch_chunk-first, remember-ok}

-- What is cached for a part of the file is the part.
abbrev pub IsSound : Text → (ℕ → List ℕ) → Cache → Type 0
IsSound file_id pieces c =
    (i : ℕ) (b : List ℕ) → get_cached_chunk c (label file_id i) ≡ some b → b ≡ pieces i

put_cached_chunk-IsSound :
    (file_id : Text) (pieces : ℕ → List ℕ) (c : Cache) (i : ℕ)
    → 0 < length (pieces i)
    → IsSound file_id pieces c
    → IsSound file_id pieces (put_cached_chunk c (label file_id i) (pieces i))
put_cached_chunk-IsSound file_id pieces c i long sound j b h =
    let read : (if bytes_eq (label file_id i) (label file_id j)
          then some (pieces i)
          else if evicts c (label file_id i) (label file_id j)
          then none
          else get_cached_chunk c (label file_id j))
        ≡ some b =
      sym (get_cached_chunk-put_cached_chunk c (label file_id i) (label file_id j) (pieces i) long)
      ∙ h in
    elim (Bool-cases (bytes_eq (label file_id i) (label file_id j))) [
      | inl same ↦
          let e : i ≡ j =
            (label_injective file_id file_id i j
              ((bytes_eq_iff (label file_id i) (label file_id j)).0 same)).1 in
          let got : some (pieces i) ≡ some b = rw same at read in
          let got' : pieces i ≡ b = cc in sym got' ∙ ap pieces e
      | inr other ↦ elim (Bool-cases (evicts c (label file_id i) (label file_id j))) [
        | inl gone ↦ absurd (let none_left : none ≡ some b = rw (other, gone) at read in cc)
        | inr kept ↦ sound j b (rw (other, kept) at read)
      ]
    ]

module _ {W : Type 0} (api : DiscordApi W) (aead : Aead) where
  -- With a cache that holds for the file nothing but its parts, a part that can be fetched is what
  -- `fetchChunk` returns, and the cache afterwards holds for the file nothing but its parts.
  pub fetch_chunk-IsSound :
      (file_id : Text) (chunk : ChunkRecord) (key : List ℕ) (pieces : ℕ → List ℕ) (e : Engine W)
      → IsSound file_id pieces e.cache
      → ((w : W) (s : Store)
          → (fetch_single_chunk api aead file_id chunk key w s).0 ≡ ok (pieces chunk.chunk_index))
      → ((fetch_chunk api aead file_id chunk key e).0 ≡ ok (pieces chunk.chunk_index))
        × IsSound file_id pieces (fetch_chunk api aead file_id chunk key e).1.cache
  unfolding fetch_chunk cached_or
  fetch_chunk-IsSound file_id chunk key pieces e sound serves =
      let l : Text = label file_id chunk.chunk_index in
      let b : List ℕ = pieces chunk.chunk_index in
      elim (Option-cases (get_cached_chunk e.cache l)) [
        | inr (b', found) ↦
            let same : b' ≡ b = sound chunk.chunk_index b' found in
            (rw found (ap ok same), rw found sound)
        | inl missing ↦
            let t : Result FetchError (List ℕ) × W × Store =
              or_copies api aead file_id chunk key
                (fetch_single_chunk api aead file_id chunk key e.net e.store) in
            let r : Result FetchError (List ℕ) × Engine W = remember api aead l e.cache t in
            let first : r.0 ≡ ok b =
              rw missing at
                (fetch_chunk-first api aead file_id chunk key b e missing (serves e.net e.store)) in
            let stored : r.1.cache ≡ put_cached_chunk e.cache l b =
              remember-ok api aead l e.cache t b r.1
                (ap (λ (x : Result FetchError (List ℕ)). (x, r.1)) first) in
            let p : IsPart api aead
                (fetch_single_chunk api aead file_id chunk key e.net e.store).0 =
              fetch_single_chunk-IsPart api aead file_id chunk key e.net e.store in
            let long : 0 < length b = rw (serves e.net e.store) at p in
            (
              rw missing first,
              rw (missing, stored)
                  (put_cached_chunk-IsSound file_id pieces e.cache chunk.chunk_index long sound),
            )
      ]

pub new_cache-IsSound : (file_id : Text) (pieces : ℕ → List ℕ) → IsSound file_id pieces new_cache
new_cache-IsSound file_id pieces i b h =
    absurd
      (let missing : none ≡ some b = sym (get_cached_chunk-new_cache (label file_id i)) ∙ h in cc)
