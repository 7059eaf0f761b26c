-- ===== src/Fetch/Tests.antt =====
-- internal/downloader/downloader.go at concrete inputs: one attachment, which lies under the link "u".
use discord_free_cloud.Base.{
  ◌∙◌, sym, ℕ, ◌≡◌, refl, ap, List, [], ◌∷◌, some, Result, ok, err, arith, codes, label, bytes_eq,
  inl,
}
use discord_free_cloud.Aead.Toy.{toy}
use discord_free_cloud.Cache.{new_cache}
use discord_free_cloud.Cache.Valid.{get_cached_chunk-new_cache}
use discord_free_cloud.Db.{ChunkRecord, query}
use discord_free_cloud.Db.Chunks.{
  get_chunks_for_file, get_chunks_for_file_and_guild, select, order_by, insert_by, index_asc,
  is_completed, is_copy_of,
}
use discord_free_cloud.Fetch.{
  Engine, FetchError, originals, fetch_single_chunk, fetch_chunk, unlock_error, first_download,
  is_alternative, fresh_download, unlock_download, is_good,
}
use discord_free_cloud.Fetch.Samples.{
  key, nonce, stored, serving, part, catalog, own, expired, server, served, own_fetch,
}
use discord_free_cloud.Fetch.Sound.{IsSound, fetch_chunk-IsSound, new_cache-IsSound}
use discord_free_cloud.Fetch.Single.{
  own_candidate, fetch_single_chunk-own, downloaded, fetch_single_chunk-sealed,
  fetch_single_chunk-empty,
}
use discord_free_cloud.Fetch.Cached.{fetch_single_chunk-copy, fetch_single_chunk-IsPart, IsPart}
use discord_free_cloud.Fetch.Copies.{fetch_chunk-first, fetch_chunk-copies, fetch_chunk_again}

fetch_single_chunk-own_example :
    (fetch_single_chunk server toy (codes "f") own key tt (catalog [])).0 ≡ ok (5 ∷ 6 ∷ [])
unfolding bytes_eq
fetch_single_chunk-own_example =
    fetch_single_chunk-own server toy (codes "f") own tt tt tt tt (catalog []) key nonce
      (5 ∷ 6 ∷ []) [] refl refl (omega arith) (omega arith) (inl (refl, refl))

fetch_single_chunk-empty_example :
    (fetch_single_chunk
      (serving (stored [] (label (codes "f") 0)))
      toy
      (codes "f")
      own
      key
      tt
      (catalog [])).0
    ≡ err unlock_error
fetch_single_chunk-empty_example =
    fetch_single_chunk-empty (serving (stored [] (label (codes "f") 0))) toy (codes "f") own tt
      (catalog []) key nonce (label (codes "f") 0) refl refl
      (rw (served [] (label (codes "f") 0) own (catalog []) refl))

fetch_single_chunk-IsPart_example :
    IsPart server toy (fetch_single_chunk server toy (codes "f") own key tt (catalog [])).0
fetch_single_chunk-IsPart_example =
    fetch_single_chunk-IsPart server toy (codes "f") own key tt (catalog [])

-- a part of "g" that reuses the bytes of part 0 of "f"
abbrev reused : ChunkRecord
reused = part (codes "c") (codes "g") (codes "u") (codes "h")

abbrev original : ChunkRecord
original = part (codes "a") (codes "f") (codes "u") (codes "h")

fetch_single_chunk-copy_example :
    (fetch_single_chunk server toy (codes "g") reused key tt (catalog (reused ∷ original ∷ []))).0
    ≡ ok (5 ∷ 6 ∷ [])
unfolding bytes_eq is_copy_of is_completed
fetch_single_chunk-copy_example =
    let again : downloaded server toy reused tt (catalog (reused ∷ original ∷ []))
        ≡ (some (stored (5 ∷ 6 ∷ []) (label (codes "f") 0)), tt, catalog (reused ∷ original ∷ [])) =
      served (5 ∷ 6 ∷ []) (label (codes "f") 0) reused (catalog (reused ∷ original ∷ [])) refl in
    fetch_single_chunk-copy server toy (codes "g") reused original tt
      (catalog (reused ∷ original ∷ [])) (reused ∷ []) [] key nonce (5 ∷ 6 ∷ []) refl refl
      (omega arith) (omega arith) (rw again) (rw again) refl refl (rw again)

abbrev idle : List ChunkRecord → Engine (Unit {0})
idle rows = record { net = tt; store = catalog rows; cache = new_cache }

-- another part of the file
abbrev next_part : ChunkRecord
next_part = record (part (codes "d") (codes "f") (codes "u") []) { chunk_index = 1 }

abbrev copies : List ChunkRecord
copies = expired ∷ own ∷ next_part ∷ []

fetch_chunk-copies_example :
    (fetch_chunk server toy (codes "f") expired key (idle copies)).0 ≡ ok (5 ∷ 6 ∷ [])
unfolding is_alternative bytes_eq is_completed fetch_single_chunk first_download fresh_download
    unlock_download get_chunks_for_file get_chunks_for_file_and_guild query select order_by
    insert_by index_asc is_good
fetch_chunk-copies_example =
    fetch_chunk-copies server toy (codes "f") expired own key (5 ∷ 6 ∷ []) (expired ∷ [])
      (next_part ∷ []) (idle copies) (catalog copies)
      (get_cached_chunk-new_cache (label (codes "f") 0)) refl refl
      (λ w s. (5 ∷ 6 ∷ [], own_fetch w s)) (λ w s b h. absurd (cc))
      (
        λ same w s b h. absurd (cc),
        (
          λ same w s b h. (let e : ok (5 ∷ 6 ∷ []) ≡ ok b = sym (own_fetch w s) ∙ h in cc),
          (λ other. absurd (omega arith), tt),
        ),
      )

-- the engine after a fetch
abbrev warm : Engine (Unit {0})
warm = (fetch_chunk server toy (codes "f") own key (idle (own ∷ []))).1

first_fetch : fetch_chunk server toy (codes "f") own key (idle (own ∷ [])) ≡ (ok (5 ∷ 6 ∷ []), warm)
first_fetch =
    ap (λ (r : Result FetchError (List ℕ)). (r, warm))
      (fetch_chunk-first server toy (codes "f") own key (5 ∷ 6 ∷ []) (idle (own ∷ []))
        (get_cached_chunk-new_cache (label (codes "f") 0)) (own_fetch tt (catalog (own ∷ []))))

fetch_chunk_again_example :
    fetch_chunk server toy (codes "f") own key warm ≡ (ok (5 ∷ 6 ∷ []), warm)
fetch_chunk_again_example =
    fetch_chunk_again server toy (codes "f") own key (5 ∷ 6 ∷ []) (idle (own ∷ [])) warm
      (omega arith) first_fetch

fetch_single_chunk-sealed_example :
    (fetch_single_chunk server toy (codes "f") own key tt (catalog [])).0 ≡ ok (5 ∷ 6 ∷ [])
fetch_single_chunk-sealed_example =
    fetch_single_chunk-sealed server toy (codes "f") own tt (catalog []) key nonce (5 ∷ 6 ∷ [])
      (label (codes "f") 0) refl refl (omega arith) (omega arith)
      (rw (served (5 ∷ 6 ∷ []) (label (codes "f") 0) own (catalog []) refl))
      (own_candidate (codes "f") own
        (originals own (downloaded server toy own tt (catalog [])).2).0)

fetch_chunk-IsSound_example :
    ((fetch_chunk server toy (codes "f") own key (idle [])).0 ≡ ok (5 ∷ 6 ∷ []))
    × IsSound
        (codes "f")
        (λ i. 5 ∷ 6 ∷ [])
        (fetch_chunk server toy (codes "f") own key (idle [])).1.cache
fetch_chunk-IsSound_example =
    fetch_chunk-IsSound server toy (codes "f") own key (λ i. 5 ∷ 6 ∷ []) (idle [])
      (new_cache-IsSound (codes "f") (λ i. 5 ∷ 6 ∷ [])) own_fetch
