-- ===== src/Chunker/Cut.antt =====
-- internal/chunker/fastcdc.go: where `NextCut` cuts.
use discord_free_cloud.Base.{
  ℕ, ◌+◌, ◌*◌, ◌%◌, ◌^◌, ◌≤◌, ◌<◌, ◌≡◌, List, [], ◌∷◌, ◌++◌, length, slice, leb, arith,
  length-slice, min, length-append, slice-append, false,
}
use discord_free_cloud.Chunker.{
  FastCdc, new_fast_cdc, default_avg_size, cut_loop, cap_at, next_cut, gear_table,
}

-- What a chunker needs: it can cut behind the least size, before the largest.
pub record IsOrdered (c : FastCdc) : Type 0 where
  pub positive : 0 < c.min_size
  pub ordered : c.min_size < c.max_size

-- `NewFastCDC` makes an ordered chunker of any average and largest size, valid or not, if the
-- least size is below the default average size of 20 MiB.
pub new_fast_cdc-IsOrdered :
    (lo avg hi : ℕ) → lo < default_avg_size → IsOrdered (new_fast_cdc lo avg hi)
unfolding new_fast_cdc
new_fast_cdc-IsOrdered lo avg hi h = ground arith

cap_at-min : (limit n : ℕ) → cap_at limit n ≡ min limit n
unfolding cap_at
cap_at-min limit n = ground arith

cut_loop_bounds :
    (mask n fingerprint i : ℕ) (bs : List ℕ)
    → i + length bs ≤ n
    → (i ≤ cut_loop mask n fingerprint i bs)
      × (i < n → i < cut_loop mask n fingerprint i bs)
      × (cut_loop mask n fingerprint i bs ≤ n)
unfolding cut_loop
cut_loop_bounds mask n fp i [] k = omega arith
cut_loop_bounds mask n fp i (b ∷ bs) k = ground (
  arith,
  cut_loop_bounds mask n ((fp * 2 % 2 ^ 64 + gear_table b) % 2 ^ 64) (i + 1) bs (omega arith),
)

-- Where `NextCut` may cut, for a positive least size below the largest size: behind the whole input if it is no longer than the least size, else
-- behind the least size, within the input and within the largest size.
pub next_cut_bounds :
    (c : FastCdc) (input : List ℕ)
    → IsOrdered c
    → (length input ≤ c.min_size → next_cut c input ≡ length input)
      × (c.min_size < length input → c.min_size < next_cut c input)
      × (next_cut c input ≤ length input)
      × (next_cut c input ≤ c.max_size)
unfolding next_cut
next_cut_bounds c input v =
    let n : ℕ = cap_at c.max_size (length input) in
    ground (
      arith,
      cap_at-min c.max_size (length input),
      length-slice input c.min_size n,
      cut_loop_bounds c.mask n 0 c.min_size (slice input c.min_size n),
    )

pub next_cut_positive :
    (c : FastCdc) (input : List ℕ) → IsOrdered c → 0 < length input → 0 < next_cut c input
next_cut_positive c input v h = ground (arith, next_cut_bounds c input v)

-- `NextCut` does not look behind the largest size.
pub next_cut-append :
    (c : FastCdc) (front back : List ℕ)
    → IsOrdered c
    → c.max_size ≤ length front
    → next_cut c (front ++ back) ≡ next_cut c front
unfolding next_cut
next_cut-append c front back v h =
    let long : leb (length (front ++ back)) c.min_size ≡ false =
      ground (arith, length-append front back) in
    let long' : leb (length front) c.min_size ≡ false = ground arith in
    let top : cap_at c.max_size (length (front ++ back)) ≡ c.max_size =
      omega (arith, cap_at-min, length-append front back) in
    let top' : cap_at c.max_size (length front) ≡ c.max_size = omega (arith, cap_at-min) in
    rw (long, long', top, top', slice-append front back c.min_size c.max_size h)
