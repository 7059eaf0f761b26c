-- ===== src/Chunker/Tests.antt =====
-- internal/chunker/fastcdc.go at concrete inputs, with small sizes and a mask of one bit.
use Prim.Native.String.{String}
use discord_free_cloud.Base.{ℕ, ◌*◌, ◌<◌, ◌≤◌, length, map, ◌≡◌, refl, List, [], ◌∷◌, arith}
use discord_free_cloud.Chunker.{
  FastCdc, new_fast_cdc, Chunk, Reader, eof, fault, chunks, failed, Outcome, split, split_loop,
  after_read, read_full, drain, cut_chunk, next_cut, cut_loop, cap_at, gear_table,
}
use discord_free_cloud.Chunker.Cut.{IsOrdered, next_cut_bounds, new_fast_cdc-IsOrdered}
use discord_free_cloud.Chunker.Drain.{reference, joined, Laid, Sized}
use discord_free_cloud.Chunker.Split.{split-reference, split-joined}

abbrev small : FastCdc
small = record { min_size = 2; avg_size = 3; max_size = 4; mask = 1 }

abbrev small-IsOrdered : IsOrdered small
small-IsOrdered = record { positive = omega arith; ordered = omega arith }

abbrev no_hash : List ℕ → String
no_hash bytes = ""

abbrev letters : Reader
letters = record { content = 1 ∷ 2 ∷ 3 ∷ 4 ∷ 5 ∷ 6 ∷ 7 ∷ 8 ∷ 9 ∷ []; ending = eof }

new_fast_cdc-IsOrdered_example : IsOrdered (new_fast_cdc 0 0 0)
new_fast_cdc-IsOrdered_example = new_fast_cdc-IsOrdered 0 0 0 (omega arith)

-- The default sizes are not ordered for a least size above them.
new_fast_cdc_unordered : (new_fast_cdc (30 * 1024 * 1024) 0 0).max_size < 30 * 1024 * 1024
unfolding new_fast_cdc
new_fast_cdc_unordered = omega arith

abbrev lens : Outcome → List ℕ
lens (chunks cs) = map (λ ch. ch.len) cs
lens _ = []

split_runs : lens (split no_hash small letters) ≡ 4 ∷ 4 ∷ 1 ∷ []
unfolding split split_loop after_read read_full next_cut cut_loop cap_at gear_table drain cut_chunk
split_runs = refl

split-reference_example :
    (letters.ending ≡ eof
      → split no_hash small letters ≡ chunks (reference no_hash small 0 0 letters.content))
    × (letters.ending ≡ fault → split no_hash small letters ≡ failed)
split-reference_example = split-reference no_hash small small-IsOrdered letters

split-joined_example :
    (cs : List Chunk) × (split no_hash small letters ≡ chunks cs)
    × (joined cs ≡ letters.content)
    × Laid no_hash small 0 0 cs
    × Sized no_hash small cs
split-joined_example = split-joined no_hash small small-IsOrdered letters refl

next_cut_bounds_example :
    (length letters.content ≤ 2 → next_cut small letters.content ≡ length letters.content)
    × (2 < length letters.content → 2 < next_cut small letters.content)
    × (next_cut small letters.content ≤ length letters.content)
    × (next_cut small letters.content ≤ 4)
next_cut_bounds_example = next_cut_bounds small letters.content small-IsOrdered
