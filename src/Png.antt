-- ===== src/Png.antt =====
-- internal/crypto/polyglot.go: an encrypted payload carried in a private chunk of a PNG file.
-- A byte string is a list of numbers. `offset` and the lengths stay below 2 ^ 63 in any slice
-- that Go can hold, so the additions on `int` do not wrap.
pub mod Crc
pub mod Frames
pub mod RoundTrip
pub mod Bounds
mod Tests
use mathlib.Core.Option
use discord_free_cloud.Base.{
  ℕ, zero, suc, ◌+◌, ◌-◌, ◌*◌, ◌/◌, ◌%◌, ◌^◌, List, [], ◌∷◌, ◌++◌, Bool, ◌||◌, not, Option, some,
  none, length, take, slice, ltb, leb, ◌==◌, if◌then◌else◌, bytes_eq,
}
use discord_free_cloud.Png.Crc.{checksum_ieee, crc_update}

abbrev pub png_magic : List ℕ
png_magic = 0x89 ∷ 0x50 ∷ 0x4E ∷ 0x47 ∷ 0x0D ∷ 0x0A ∷ 0x1A ∷ 0x0A ∷ []

abbrev pub ihdr_type : List ℕ
ihdr_type = b'I' ∷ b'H' ∷ b'D' ∷ b'R' ∷ []

abbrev pub idat_type : List ℕ
idat_type = b'I' ∷ b'D' ∷ b'A' ∷ b'T' ∷ []

abbrev pub ddat_type : List ℕ
ddat_type = b'd' ∷ b'D' ∷ b'a' ∷ b't' ∷ []

abbrev pub iend_type : List ℕ
iend_type = b'I' ∷ b'E' ∷ b'N' ∷ b'D' ∷ []

abbrev pub capt_type : List ℕ
capt_type = b'c' ∷ b'a' ∷ b'P' ∷ b't' ∷ []

abbrev pub text_type : List ℕ
text_type = b't' ∷ b'E' ∷ b'X' ∷ b't' ∷ []

abbrev pub ihdr_data : List ℕ
ihdr_data = 0 ∷ 0 ∷ 0 ∷ 1 ∷ 0 ∷ 0 ∷ 0 ∷ 1 ∷ 8 ∷ 6 ∷ 0 ∷ 0 ∷ 0 ∷ []

abbrev pub idat_data : List ℕ
idat_data =
    0x78 ∷ 0x9C ∷ 0x63 ∷ 0x00 ∷ 0x01 ∷ 0x00 ∷ 0x00 ∷ 0x05 ∷ 0x00 ∷ 0x01 ∷ 0x0D ∷ 0x0A ∷ 0x2D ∷ 0xB4
    ∷ []

-- `binary.BigEndian.PutUint32(b, uint32(n))`
pub put_u32 : ℕ → List ℕ
put_u32 n = n / 2 ^ 24 % 256 ∷ n / 2 ^ 16 % 256 ∷ n / 2 ^ 8 % 256 ∷ n % 256 ∷ []

-- `binary.BigEndian.Uint32`; it is called on four bytes only.
pub get_u32 : List ℕ → ℕ
get_u32 (a ∷ b ∷ c ∷ d ∷ rest) = a * 2 ^ 24 + b * 2 ^ 16 + c * 2 ^ 8 + d
get_u32 _ = 0

-- the checksum of a chunk: over its type, then over its data if there are any
pub chunk_crc : List ℕ → List ℕ → ℕ
chunk_crc chunk_type body =
    let crc_val = checksum_ieee chunk_type in
    if ltb 0 (length body) then crc_update crc_val body else crc_val

-- The buffer after `writePNGChunk(buf, chunkType, data)`.
pub write_png_chunk : List ℕ → List ℕ → List ℕ → List ℕ
write_png_chunk buf chunk_type body =
    buf
    ++ (put_u32 (length body % 2 ^ 32)
        ++ (chunk_type ++ (body ++ put_u32 (chunk_crc chunk_type body))))

pub wrap_png : List ℕ → List ℕ
wrap_png payload =
    let buf1 = write_png_chunk png_magic ihdr_type ihdr_data in
    let buf2 = write_png_chunk buf1 idat_type idat_data in
    let buf3 = write_png_chunk buf2 ddat_type payload in write_png_chunk buf3 iend_type []

-- the variables `extracted`, `firstSlice` and `matchCount` of `UnwrapPNG`
pub record Scan : Type 0 where
  pub extracted : List ℕ
  pub first_slice : List ℕ
  pub match_count : ℕ

abbrev pub empty_scan : Scan
empty_scan = record { extracted = []; first_slice = []; match_count = 0 }

-- `chunkType == "dDat" || chunkType == "caPt" || chunkType == "tEXt"`
pub carries : List ℕ → Bool
unfolding bytes_eq
carries t = bytes_eq t ddat_type || bytes_eq t capt_type || bytes_eq t text_type

-- the body of the loop of `UnwrapPNG` on one whole chunk
pub visit : List ℕ → List ℕ → Scan → Scan
visit chunk_type body s =
    if carries chunk_type
    then if s.match_count + 1 == 1
      then record s { match_count = s.match_count + 1; first_slice = body }
      else if s.match_count + 1 == 2
      then record s { match_count = s.match_count + 1; extracted = s.first_slice ++ body }
      else record s { match_count = s.match_count + 1; extracted = s.extracted ++ body }
    else s

-- The loop of `UnwrapPNG`; `none` is no Go value: the fuel ran out.
pub scan : ℕ → List ℕ → ℕ → Scan → Option Scan
scan zero bytes offset s = none
scan (suc fuel) bytes offset s =
    let chunk_len = get_u32 (slice bytes offset (offset + 4)) in
    let chunk_type = slice bytes (offset + 4) (offset + 8) in
    let chunk_data_start = offset + 8 in
    let chunk_data_end = chunk_data_start + chunk_len in
    let chunk_crc_end = chunk_data_end + 4 in
    let rest =
      scan fuel bytes chunk_crc_end
        (visit chunk_type (slice bytes chunk_data_start chunk_data_end) s) in
    if leb (offset + 8) (length bytes)
    then if ltb (length bytes) chunk_crc_end then some s else rest
    else some s

-- what `UnwrapPNG` returns after its loop
pub finish : List ℕ → Scan → List ℕ
finish bytes s =
    if s.match_count == 1
    then s.first_slice
    else if ltb 0 (length s.extracted)
    then s.extracted
    else bytes

-- A round takes twelve bytes at least, so `length bytes` rounds are enough.
pub unwrap_png : List ℕ → Option (List ℕ)
unwrap_png bytes =
    if ltb (length bytes) 8 || not (bytes_eq (take 8 bytes) png_magic)
    then some bytes
    else Option.map (finish bytes) (scan (length bytes) bytes 8 empty_scan)
