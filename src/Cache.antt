-- ===== src/Cache.antt =====
-- internal/downloader/downloader.go: the chunk cache of the download engine, which the lock
-- `chunkCacheMu` makes atomic. The time of the last access is written and never read, so an
-- entry is its bytes. `nil` is the empty map of a zero `Engine`.
pub mod Valid
pub mod Fifo
mod Tests
use discord_free_cloud.Base.{
  ℕ, ◌+◌, List, [], ◌∷◌, ◌++◌, Option, some, none, length, leb, ◌==◌, if◌then◌else◌, Text, lookup,
  insert, remove,
}

pub record Cache : Type 0 where
  pub entries : List (Text × List ℕ)
  pub order : List Text
  pub max_size : ℕ

abbrev pub cache_limit : ℕ
cache_limit = 32

-- the cache of `NewEngine`
pub new_cache : Cache
new_cache = record { entries = []; order = []; max_size = cache_limit }

pub get_cached_chunk : Cache → Text → Option (List ℕ)
unfolding lookup
get_cached_chunk c key = lookup key c.entries

-- The eviction of `putCachedChunk`: Go would panic on an empty `cacheOrder`, which a positive
-- size rules out; the model then leaves the cache.
pub evict_oldest : Cache → List Text → Cache
unfolding remove
evict_oldest c [] = c
evict_oldest c (oldest ∷ rest) = record c { order = rest; entries = remove oldest c.entries }

pub make_room : Cache → Cache
unfolding evict_oldest
make_room c = if leb c.max_size (length c.order) then evict_oldest c c.order else c

pub put_cached_chunk : Cache → Text → List ℕ → Cache
unfolding insert lookup
put_cached_chunk c key bytes = if length bytes == 0 then c else elim (lookup key c.entries) [
  | some _ ↦ record c { entries = insert key bytes c.entries }
  | none ↦
      (let c1 = make_room c in
        record c1 { order = c1.order ++ (key ∷ []); entries = insert key bytes c1.entries })
]
