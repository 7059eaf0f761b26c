-- ===== src/Png/RoundTrip.antt =====
-- internal/crypto/polyglot.go: `UnwrapPNG` on streams of chunks, and on what `WrapPNG` wrote.
use mathlib.Core.List.{foldl}
use discord_free_cloud.Base.{
  ℕ, ◌+◌, ◌^◌, ◌≤◌, ◌<◌, ◌≡◌, ◌∙◌, List, [], ◌∷◌, ◌++◌, ◌||◌, some, length, append_assoc,
  append-nil, ltb, ◌==◌, if◌then◌else◌, arith, true, false, Bool-cases, inl, inr, bytes_eq_refl, ap,
}
use discord_free_cloud.Png.{
  png_magic, ihdr_type, ihdr_data, idat_type, idat_data, ddat_type, iend_type, write_png_chunk,
  wrap_png, Scan, empty_scan, carries, visit, finish, unwrap_png,
}
use discord_free_cloud.Png.Frames.{Frame, AllFrames, stream, step, scan-stream}

-- the data of the chunks that carry a payload, one after the other
abbrev pub collected : List Frame → List ℕ
collected [] = []
collected (f ∷ fs) = if carries f.0 then f.1 ++ collected fs else collected fs

-- how many chunks carry a payload
abbrev pub carriers : List Frame → ℕ
carriers [] = 0
carriers (f ∷ fs) = if carries f.0 then carriers fs + 1 else carriers fs

-- What the loop's variables hold when `n` carrying chunks with the data `acc` have been seen.
record Holds (acc : List ℕ) (n : ℕ) (s : Scan) : Type 0 where
  count : s.match_count ≡ n
  none_yet : n ≡ 0 → acc ≡ []
  one : n ≡ 1 → s.first_slice ≡ acc
  few : n < 2 → s.extracted ≡ []
  more : 2 ≤ n → s.extracted ≡ acc

step-Holds_carrier :
    (acc : List ℕ) (n : ℕ) (s : Scan) (f : Frame)
    → carries f.0 ≡ true
    → Holds acc n s
    → Holds (acc ++ f.1) (n + 1) (step s f)
unfolding visit
step-Holds_carrier acc n s f e h = rw e (ground arith)

step-Holds_other :
    (acc : List ℕ) (n : ℕ) (s : Scan) (f : Frame)
    → carries f.0 ≡ false
    → Holds acc n s
    → Holds acc n (step s f)
unfolding visit
step-Holds_other acc n s f e h = rw e h

foldl-Holds :
    (fs : List Frame) (acc : List ℕ) (n : ℕ) (s : Scan)
    → Holds acc n s
    → Holds (acc ++ collected fs) (n + carriers fs) (foldl step s fs)
foldl-Holds [] acc n s h = rw append-nil (let e : n + 0 ≡ n = omega arith in rw e h)
foldl-Holds (f ∷ fs) acc n s h = elim (Bool-cases (carries f.0)) [
  | inl e ↦
      let k : n + (carriers fs + 1) ≡ n + 1 + carriers fs = omega arith in
      rw (e, k, ← append_assoc)
        (foldl-Holds fs (acc ++ f.1) (n + 1) (step s f) (step-Holds_carrier acc n s f e h))
  | inr e ↦ rw e (foldl-Holds fs acc n (step s f) (step-Holds_other acc n s f e h))
]

scan-Holds : (fs : List Frame) → Holds (collected fs) (carriers fs) (foldl step empty_scan fs)
scan-Holds fs =
    let e : 0 + carriers fs ≡ carriers fs = omega arith in
    rw e at (foldl-Holds fs [] 0 empty_scan (ground arith))

finish-Holds :
    (bytes acc : List ℕ) (n : ℕ) (s : Scan)
    → Holds acc n s
    → finish bytes s ≡ (if (n == 1) || ltb 0 (length acc) then acc else bytes)
unfolding finish
finish-Holds bytes acc n s h = ground arith

-- A PNG file of whole chunks unwraps to the data of its payload chunks ("dDat", "caPt", "tEXt")
-- joined in order; to itself if it has none of them, or several that are all empty.
pub unwrap_png-stream :
    (fs : List Frame)
    → AllFrames fs
    → unwrap_png (png_magic ++ stream fs)
      ≡ some (
          if (carriers fs == 1) || ltb 0 (length (collected fs))
          then collected fs
          else png_magic ++ stream fs)
unfolding unwrap_png
unwrap_png-stream fs v =
    let bytes : List ℕ = png_magic ++ stream fs in
    let long : ltb (length bytes) 8 ≡ false = ground arith in
    rw (long, bytes_eq_refl png_magic)
      (rw (scan-stream (length bytes) png_magic fs empty_scan v (omega arith)) (
        ap some (
          finish-Holds bytes (collected fs) (carriers fs) (foldl step empty_scan fs)
            (scan-Holds fs))))

-- the four chunks that `WrapPNG` writes
abbrev wrap_frames : List ℕ → List Frame
wrap_frames payload =
    (ihdr_type, ihdr_data) ∷ (idat_type, idat_data) ∷ (ddat_type, payload) ∷ (iend_type, []) ∷ []

wrap_png-stream : (payload : List ℕ) → wrap_png payload ≡ png_magic ++ stream (wrap_frames payload)
unfolding wrap_png write_png_chunk
wrap_png-stream payload = simp (append_assoc, append-nil)

-- A container is never empty.
pub length-wrap_png : (payload : List ℕ) → 8 ≤ length (wrap_png payload)
length-wrap_png payload = rw (wrap_png-stream payload) (omega arith)

wrap_frames-AllFrames :
    (payload : List ℕ) → length payload < 2 ^ 32 → AllFrames (wrap_frames payload)
wrap_frames-AllFrames payload h = omega arith

-- `UnwrapPNG` gives back the payload that `WrapPNG` was given, empty or not, if its length fits
-- the 32 bits of a chunk's length field.
pub unwrap_png-wrap_png :
    (payload : List ℕ) → length payload < 2 ^ 32 → unwrap_png (wrap_png payload) ≡ some payload
unfolding carries
unwrap_png-wrap_png payload h =
    rw (wrap_png-stream payload)
      (unwrap_png-stream (wrap_frames payload) (wrap_frames-AllFrames payload h) ∙ rw append-nil)
