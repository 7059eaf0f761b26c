-- ===== src/Png/Frames.antt =====
-- internal/crypto/polyglot.go: what the loop of `UnwrapPNG` does on a sequence of whole chunks.
use mathlib.Core.List.{foldl}
use discord_free_cloud.Base.{
  ℕ, zero, suc, ◌+◌, ◌%◌, ◌^◌, ◌≤◌, ◌<◌, ◌≡◌, refl, ◌∙◌, List, [], ◌∷◌, ◌++◌, some, length,
  length-append, append_assoc, slice, slice-mid_of, arith,
}
use discord_free_cloud.Png.{put_u32, get_u32, chunk_crc, Scan, visit, scan}

-- a chunk: its type and its data
abbrev pub Frame : Type 0
Frame = List ℕ × List ℕ

-- A chunk that a PNG file can hold: four bytes of type, a length that fits 32 bits.
pub record IsFrame (f : Frame) : Type 0 where
  pub four : length f.0 ≡ 4
  pub fits : length f.1 < 2 ^ 32

abbrev pub AllFrames : List Frame → Type 0
AllFrames [] = Unit {0}
AllFrames (f ∷ fs) = IsFrame f × AllFrames fs

-- the bytes of a chunk
abbrev pub frame_bytes : Frame → List ℕ
frame_bytes f = put_u32 (length f.1 % 2 ^ 32) ++ (f.0 ++ (f.1 ++ put_u32 (chunk_crc f.0 f.1)))

abbrev pub stream : List Frame → List ℕ
stream [] = []
stream (f ∷ fs) = frame_bytes f ++ stream fs

abbrev pub step : Scan → Frame → Scan
step s f = visit f.0 f.1 s

get_u32-put_u32 : (n : ℕ) → n < 2 ^ 32 → get_u32 (put_u32 n) ≡ n
unfolding get_u32 put_u32
get_u32-put_u32 n h = omega arith

length-put_u32 : (n : ℕ) → length (put_u32 n) ≡ 4
unfolding put_u32
length-put_u32 n = refl

pub length-frame_bytes : (f : Frame) → IsFrame f → length (frame_bytes f) ≡ length f.1 + 12
length-frame_bytes f v = omega (
  arith,
  length-put_u32,
  length-append (put_u32 (length f.1 % 2 ^ 32)) (f.0 ++ (f.1 ++ put_u32 (chunk_crc f.0 f.1))),
  length-append f.0 (f.1 ++ put_u32 (chunk_crc f.0 f.1)),
  length-append f.1 (put_u32 (chunk_crc f.0 f.1)),
  v.four,
)

-- A chunk in the middle of a byte string: header, type, data and checksum, each of four bytes but
-- the data.
module _ (front h t d c back : List ℕ) (h4 : length h ≡ 4) (t4 : length t ≡ 4)
    (c4 : length c ≡ 4) where
  abbrev whole : List ℕ
  whole = front ++ ((h ++ (t ++ (d ++ c))) ++ back)

  slice-header : slice whole (length front) (length front + 4) ≡ h
  slice-header =
      slice-mid_of whole front h ((t ++ (d ++ c)) ++ back) _ _ (simp append_assoc) refl
        (omega arith)

  slice-type : slice whole (length front + 4) (length front + 8) ≡ t
  slice-type =
      slice-mid_of whole (front ++ h) t ((d ++ c) ++ back) _ _ (simp append_assoc)
        (omega (arith, length-append front h)) (omega (arith, length-append front h))

  slice-data : slice whole (length front + 8) (length front + 8 + length d) ≡ d
  slice-data =
      slice-mid_of whole (front ++ (h ++ t)) d (c ++ back) _ _ (simp append_assoc)
        (omega (arith, length-append front (h ++ t), length-append h t))
        (omega (arith, length-append front (h ++ t), length-append h t))

  length-whole : length whole ≡ length front + 12 + length d + length back
  length-whole = omega (
    arith,
    length-append front ((h ++ (t ++ (d ++ c))) ++ back),
    length-append (h ++ (t ++ (d ++ c))) back,
    length-append h (t ++ (d ++ c)),
    length-append t (d ++ c),
    length-append d c,
  )

-- One round of the loop, the header read and the chunk inside the bytes.
pub scan-step :
    (fuel : ℕ) (bytes : List ℕ) (offset n : ℕ) (t d : List ℕ) (s : Scan)
    → get_u32 (slice bytes offset (offset + 4)) ≡ n
    → slice bytes (offset + 4) (offset + 8) ≡ t
    → slice bytes (offset + 8) (offset + 8 + n) ≡ d
    → offset + 12 + n ≤ length bytes
    → scan (suc fuel) bytes offset s ≡ scan fuel bytes (offset + 12 + n) (visit t d s)
unfolding scan
scan-step fuel bytes offset n t d s header kind body inside =
    let e : offset + 8 + n + 4 ≡ offset + 12 + n = omega arith in
    rw (header, kind, body, e) (ground arith)

-- One round of the loop on a whole chunk: it is visited and the offset moves behind it.
scan-frame :
    (fuel : ℕ) (front back : List ℕ) (f : Frame) (s : Scan)
    → IsFrame f
    → scan (suc fuel) (front ++ (frame_bytes f ++ back)) (length front) s
      ≡ scan fuel (front ++ (frame_bytes f ++ back)) (length (front ++ frame_bytes f)) (step s f)
scan-frame fuel front back f s v =
    let h : List ℕ = put_u32 (length f.1 % 2 ^ 32) in
    let c : List ℕ = put_u32 (chunk_crc f.0 f.1) in
    let h4 : length h ≡ 4 = length-put_u32 _ in
    let c4 : length c ≡ 4 = length-put_u32 _ in
    let read : get_u32 h ≡ length f.1 = get_u32-put_u32 _ (omega arith) ∙ omega (arith, v.fits) in
    let e : length (front ++ frame_bytes f) ≡ length front + 12 + length f.1 =
      omega (arith, length-append front (frame_bytes f), length-frame_bytes f v) in
    rw e (
      scan-step fuel (front ++ (frame_bytes f ++ back)) (length front) (length f.1) f.0 f.1 s
        (rw (slice-header front h f.0 f.1 c back h4 v.four c4) read)
        (slice-type front h f.0 f.1 c back h4 v.four c4)
        (slice-data front h f.0 f.1 c back h4 v.four c4)
        (omega (arith, length-whole front h f.0 f.1 c back h4 v.four c4)))

-- The loop stops where fewer than eight bytes are left.
scan-end :
    (fuel : ℕ) (bytes : List ℕ) (offset : ℕ) (s : Scan)
    → length bytes < offset + 8
    → scan (suc fuel) bytes offset s ≡ some s
unfolding scan
scan-end fuel bytes offset s h = ground arith

-- The loop visits the chunks of a stream in order, and ends behind the last.
pub scan-stream :
    (fuel : ℕ) (front : List ℕ) (fs : List Frame) (s : Scan)
    → AllFrames fs
    → length (stream fs) < fuel
    → scan fuel (front ++ stream fs) (length front) s ≡ some (foldl step s fs)
scan-stream zero front fs s v h = absurd (omega arith)
scan-stream (suc fuel) front [] s v h =
    scan-end fuel (front ++ []) (length front) s (omega (arith, length-append front []))
scan-stream (suc fuel) front (f ∷ fs) s v h =
    scan-frame fuel front (stream fs) f s v.0
    ∙ rw (← append_assoc) (
        scan-stream fuel (front ++ frame_bytes f) fs (step s f) v.1
          (omega (arith, length-append (frame_bytes f) (stream fs), length-frame_bytes f v.0)))
