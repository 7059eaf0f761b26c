-- ===== src/Cache/Tests.antt =====
-- internal/downloader/downloader.go: the chunk cache at concrete inputs.
use discord_free_cloud.Base.{
  ℕ, ◌≡◌, refl, [], ◌∷◌, some, none, true, arith, Text, codes, label, bytes_eq, if◌then◌else◌,
}
use discord_free_cloud.Cache.{new_cache, get_cached_chunk, put_cached_chunk}
use discord_free_cloud.Cache.Valid.{IsValid, new_cache-IsValid, put_cached_chunk-IsValid, present}
use discord_free_cloud.Cache.Fifo.{
  evicts, put_all, get_cached_chunk-put_cached_chunk, put_all-keeps,
}

abbrev part : ℕ → Text
part = label (codes "f")

put_cached_chunk-IsValid_example : IsValid (put_cached_chunk new_cache (part 0) (1 ∷ []))
put_cached_chunk-IsValid_example =
    put_cached_chunk-IsValid new_cache (part 0) (1 ∷ []) new_cache-IsValid

get_cached_chunk-put_cached_chunk_example :
    get_cached_chunk (put_cached_chunk new_cache (part 0) (1 ∷ [])) (part 1) ≡ (
      if bytes_eq (part 0) (part 1)
      then some (1 ∷ [])
      else if evicts new_cache (part 0) (part 1)
      then none
      else get_cached_chunk new_cache (part 1))
get_cached_chunk-put_cached_chunk_example =
    get_cached_chunk-put_cached_chunk new_cache (part 0) (part 1) (1 ∷ []) (omega arith)

put_all-keeps_example :
    present (
      get_cached_chunk
        (put_all
          (put_cached_chunk new_cache (part 0) (1 ∷ []))
          ((part 1, 2 ∷ []) ∷ (part 2, 3 ∷ []) ∷ []))
        (part 0))
    ≡ true
unfolding new_cache get_cached_chunk
put_all-keeps_example =
    put_all-keeps new_cache (part 0) (1 ∷ []) ((part 1, 2 ∷ []) ∷ (part 2, 3 ∷ []) ∷ [])
      new_cache-IsValid (omega arith) refl (omega arith)
