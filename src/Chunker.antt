-- ===== src/Chunker.antt =====
-- internal/chunker/fastcdc.go: content-defined chunking. An `int` argument that is negative takes
-- the branches that 0 takes, so the sizes are natural numbers; a file is far shorter than 2 ^ 63.
-- The reader is its remaining bytes and how it ends; SHA-256 in hexadecimal is a parameter.
pub mod Cut
pub mod Drain
pub mod Split
mod Tests
use Prim.Native.String.{String}
use discord_free_cloud.Base.{
  ℕ, zero, suc, ◌+◌, ◌-◌, ◌*◌, ◌%◌, ◌^◌, List, [], ◌∷◌, ◌++◌, Option, some, none, length, take,
  drop, slice, ltb, leb, ◌==◌, if◌then◌else◌, bit_and,
}

abbrev pub default_min_size : ℕ
default_min_size = 8 * 1024 * 1024

abbrev pub default_avg_size : ℕ
default_avg_size = 20 * 1024 * 1024

abbrev pub default_max_size : ℕ
default_max_size = 24 * 1024 * 1024

abbrev pub mask_bits : ℕ
mask_bits = 24

-- `g` after so many rounds of the loop of `init`
gear_state : ℕ → ℕ
gear_state zero = 0x9E3779B97F4A7C15
gear_state (suc i) = (gear_state i * 0x5851F42D4C957F2D + 0x14057B7E76E1149B) % 2 ^ 64

pub gear_table : ℕ → ℕ
unfolding gear_state
gear_table i = gear_state (i + 1)

pub record Chunk : Type 0 where
  pub index : ℕ
  pub offset : ℕ
  pub len : ℕ
  pub bytes : List ℕ
  pub sha256_hash : String

pub record FastCdc : Type 0 where
  pub min_size : ℕ
  pub avg_size : ℕ
  pub max_size : ℕ
  pub mask : ℕ

pub new_fast_cdc : ℕ → ℕ → ℕ → FastCdc
new_fast_cdc min_size avg_size max_size =
    let lo = if leb min_size 0 then default_min_size else min_size in
    let avg = if leb avg_size lo then default_avg_size else avg_size in
    let hi = if leb max_size avg then default_max_size else max_size in
    record { min_size = lo; avg_size = avg; max_size = hi; mask = 2 ^ mask_bits - 1 }

-- The loop of `NextCut` at index `i`; the list is the bytes from there up to `n`.
pub cut_loop : (mask n fingerprint i : ℕ) → List ℕ → ℕ
cut_loop mask n fingerprint i [] = n
cut_loop mask n fingerprint i (b ∷ bs) =
    let fingerprint' = (fingerprint * 2 % 2 ^ 64 + gear_table b) % 2 ^ 64 in
    let rest = cut_loop mask n fingerprint' (i + 1) bs in
    if bit_and fingerprint' mask == 0 then i + 1 else rest

-- `if n > limit { n = limit }`
pub cap_at : ℕ → ℕ → ℕ
cap_at limit n = if ltb limit n then limit else n

pub next_cut : FastCdc → List ℕ → ℕ
next_cut c input =
    if leb (length input) c.min_size
    then length input
    else let n = cap_at c.max_size (length input) in
      cut_loop c.mask n 0 c.min_size (slice input c.min_size n)

-- How a reader ends: `io.EOF`, or an error of its own.
pub data Ending : Type 0 where
  eof fault : Ending

pub record Reader : Type 0 where
  pub content : List ℕ
  pub ending : Ending

-- The error of `io.ReadFull`: none if it filled the buffer, else how the reader ended (`eof` is
-- `io.EOF` or `io.ErrUnexpectedEOF`).
pub read_full : Reader → ℕ → List ℕ × Option Ending × Reader
read_full r k = (
  take k r.content,
  if leb k (length r.content) then none else some r.ending,
  record r { content = drop k r.content },
)

-- What `Split` returns: its chunks, the reader's error, or (in the model only) no more fuel.
pub data Outcome : Type 0 where
  chunks : List Chunk → Outcome
  failed : Outcome
  stuck : Outcome

module _ (sha256_hex : List ℕ → String) (c : FastCdc) where
  -- the chunk that is cut from the front of the buffer
  pub cut_chunk : (index offset : ℕ) → List ℕ → Chunk
  cut_chunk index offset buf =
      let cut = next_cut c buf in
      let chunk_data = take cut buf in
      record {
        index = index;
        offset = offset;
        len = cut;
        bytes = chunk_data;
        sha256_hash = sha256_hex chunk_data;
      }

  -- The inner loop of `Split`, after the end of the input: `out` is `chunks`, `buf` is
  -- `buf[:bufLen]`.
  pub drain : ℕ → (index offset : ℕ) → List ℕ → List Chunk → Outcome
  drain fuel index offset [] out = chunks out
  drain zero index offset (b ∷ bs) out = stuck
  drain (suc fuel) index offset (b ∷ bs) out =
      let buf = b ∷ bs in
      let cut = next_cut c buf in
      drain fuel (index + 1) (offset + cut) (drop cut buf)
        (out ++ (cut_chunk index offset buf ∷ []))

  -- A round of the outer loop of `Split` behind its read: `buf` is `buf[:bufLen]`, and `again` is
  -- the next round.
  pub after_read :
      (again : Reader → (index offset : ℕ) → List ℕ → List Chunk → Outcome)
      → (index offset : ℕ) → List Chunk
      → Option Ending
      → List ℕ
      → Reader
      → Outcome
  after_read again index offset out none [] r = chunks []
  after_read again index offset out (some eof) [] r = chunks out
  after_read again index offset out (some fault) [] r = failed
  after_read again index offset out (some eof) (b ∷ bs) r =
      let buf = b ∷ bs in
      let cut = next_cut c buf in
      drain (length buf) (index + 1) (offset + cut) (drop cut buf)
        (out ++ (cut_chunk index offset buf ∷ []))
  after_read again index offset out _ (b ∷ bs) r =
      let buf = b ∷ bs in
      let cut = next_cut c buf in
      again r (index + 1) (offset + cut) (drop cut buf) (out ++ (cut_chunk index offset buf ∷ []))

  -- The outer loop of `Split`.
  pub split_loop : ℕ → Reader → (index offset : ℕ) → List ℕ → List Chunk → Outcome
  split_loop zero r index offset buf out = stuck
  split_loop (suc fuel) r index offset buf out =
      let (got, e, r') = read_full r (c.max_size * 2 - length buf) in
      after_read (split_loop fuel) index offset out e (buf ++ got) r'

  -- Each round cuts a byte at least, so this fuel is enough.
  pub split : Reader → Outcome
  split r = split_loop (length r.content + 1) r 0 0 [] []
