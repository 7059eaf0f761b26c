-- ===== src/Png/Bounds.antt =====
-- internal/crypto/polyglot.go: `UnwrapPNG` on any bytes, well formed or not.
use discord_free_cloud.Base.{
  ℕ, zero, suc, ◌+◌, ◌≤◌, ◌<◌, ◌≡◌, List, some, length, length-append, slice, length-slice, take,
  ltb, leb, arith, Bool-cases, inl, inr, bytes_eq, ◌||◌, not,
}
use discord_free_cloud.Png.{get_u32, Scan, empty_scan, visit, scan, finish, unwrap_png, png_magic}

-- Nothing collected is longer than the bytes read.
record IsWithin (limit : ℕ) (s : Scan) : Type 0 where
  parts : length s.extracted ≤ limit
  first : length s.first_slice ≤ limit

visit-IsWithin :
    (t d : List ℕ) (s : Scan) (limit n : ℕ)
    → length d ≤ n
    → IsWithin limit s
    → IsWithin (limit + n) (visit t d s)
unfolding visit
visit-IsWithin t d s limit n h v =
    ground (arith, length-append s.first_slice d, length-append s.extracted d)

-- With fuel for the bytes left, the loop ends, and what it collects is within the bytes.
scan-IsWithin :
    (fuel : ℕ) (bytes : List ℕ) (offset : ℕ) (s : Scan)
    → offset ≤ length bytes
    → length bytes < offset + fuel
    → IsWithin offset s
    → (r : Scan) × (scan fuel bytes offset s ≡ some r) × IsWithin (length bytes) r
unfolding scan
scan-IsWithin zero bytes offset s h m v = absurd (omega arith)
scan-IsWithin (suc fuel) bytes offset s h m v =
    let n : ℕ = get_u32 (slice bytes offset (offset + 4)) in
    let t : List ℕ = slice bytes (offset + 4) (offset + 8) in
    let d : List ℕ = slice bytes (offset + 8) (offset + 8 + n) in
    let next : ℕ = offset + 8 + n + 4 in
    let here : IsWithin (length bytes) s = omega arith in
    elim (Bool-cases (leb (offset + 8) (length bytes))) [
      | inr small ↦ (s, rw small, here)
      | inl big ↦ elim (Bool-cases (ltb (length bytes) next)) [
        | inl cut ↦ (s, rw (big, cut), here)
        | inr whole ↦
            rw (big, whole)
              (scan-IsWithin fuel bytes next (visit t d s) (ground arith) (omega arith) (
                let w : IsWithin (offset + n) (visit t d s) =
                  visit-IsWithin t d s offset n
                    (omega (arith, length-slice bytes (offset + 8) (offset + 8 + n))) v in
                omega arith))
      ]
    ]

-- `UnwrapPNG` ends on every input, and never returns more bytes than it was given.
pub unwrap_png_total :
    (bytes : List ℕ) → (r : List ℕ) × (unwrap_png bytes ≡ some r) × (length r ≤ length bytes)
unfolding unwrap_png finish
unwrap_png_total bytes =
    elim (Bool-cases (ltb (length bytes) 8 || not (bytes_eq (take 8 bytes) png_magic))) [
      | inl foreign ↦ (bytes, rw foreign, omega arith)
      | inr png ↦
          let long : 8 ≤ length bytes = ground arith in
          let (s, e, w) =
            scan-IsWithin (length bytes) bytes 8 empty_scan long (omega arith) (omega arith) in
          (finish bytes s, rw (png, e), ground arith)
    ]
