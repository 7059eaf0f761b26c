-- ===== src/Base/Slices.antt =====
-- Go slices `s[lo:hi]` of byte strings.
use Prim.Native.Nat.{ℕ, zero, suc, ◌+◌, ◌-◌, ◌≤◌, min}
use mathlib.Core.Path.{◌≡◌, sym, ap, ◌∙◌}
use mathlib.Core.List.{List, [], ◌∷◌, ◌++◌}
use native.Mathlib.Omega.{arith}
use discord_free_cloud.Base.Lists.{
  length, take, drop, length-take, length-drop, take-append, drop-append, take-length-append,
  drop-length-append, nil_of_length, take_of_length-le, drop-drop, take-take,
}

module _ {ℓ} {A : Type ℓ} where
  -- `s[lo:hi]`, for `lo ≤ hi`
  abbrev pub slice : List A → ℕ → ℕ → List A
  slice s lo hi = take (hi - lo) (drop lo s)

  pub length-slice :
      (s : List A) (lo hi : ℕ) → length (slice s lo hi) ≡ min (hi - lo) (length s - lo)
  length-slice s lo hi = omega (arith, length-take (hi - lo) (drop lo s), length-drop lo s)

  -- The slice that starts behind `front` and is as long as `mid` is `mid`.
  pub slice-mid :
      (front mid back : List A) (lo hi : ℕ)
      → lo ≡ length front
      → hi ≡ length front + length mid
      → slice (front ++ (mid ++ back)) lo hi ≡ mid
  slice-mid front mid back lo hi p q =
      rw (p, drop-length-append front (mid ++ back))
        (rw (let e : hi - length front ≡ length mid = omega arith in e)
          (take-length-append mid back))

  pub slice-mid_of :
      (s front mid back : List A) (lo hi : ℕ)
      → s ≡ front ++ (mid ++ back)
      → lo ≡ length front
      → hi ≡ length front + length mid
      → slice s lo hi ≡ mid
  slice-mid_of s front mid back lo hi e p q = rw e (slice-mid front mid back lo hi p q)

  -- A slice inside the front of a text does not see what follows.
  pub slice-append :
      (s back : List A) (lo hi : ℕ) → hi ≤ length s → slice (s ++ back) lo hi ≡ slice s lo hi
  slice-append s back lo hi h =
      rw (drop-append s back lo)
        (take-append (hi - lo) (drop lo s) _ (omega (arith, length-drop lo s)))

  pub slice_nil : (s : List A) (lo hi : ℕ) → hi ≤ lo → slice s lo hi ≡ []
  slice_nil s lo hi h = nil_of_length (slice s lo hi) (omega (arith, length-slice s lo hi))

  pub slice_past : (s : List A) (lo hi : ℕ) → length s ≤ lo → slice s lo hi ≡ []
  slice_past s lo hi h = nil_of_length (slice s lo hi) (omega (arith, length-slice s lo hi))

  take-add : (a b : ℕ) (xs : List A) → take a xs ++ take b (drop a xs) ≡ take (a + b) xs
  take-add zero b xs = ap (λ (n : ℕ). take n xs) (let e : b ≡ 0 + b = omega arith in e)
  take-add (suc a) b [] =
      take_of_length-le b [] (omega arith) ∙ sym (take_of_length-le (suc a + b) [] (omega arith))
  take-add (suc a) b (x ∷ xs) =
      ap (◌∷◌ x) (take-add a b xs)
      ∙ ap (λ (n : ℕ). take n (x ∷ xs)) (let e : suc (a + b) ≡ suc a + b = omega arith in e)

  drop-take : (a n : ℕ) (xs : List A) → drop a (take n xs) ≡ take (n - a) (drop a xs)
  drop-take zero n xs = ap (λ (k : ℕ). take k xs) (let e : n ≡ n - 0 = omega arith in e)
  drop-take (suc a) zero xs =
      sym (ap (λ (k : ℕ). take k (drop (suc a) xs)) (let e : 0 - suc a ≡ 0 = omega arith in e))
  drop-take (suc a) (suc n) [] = sym (take_of_length-le (suc n - suc a) [] (omega arith))
  drop-take (suc a) (suc n) (x ∷ xs) =
      drop-take a n xs
      ∙ ap (λ (k : ℕ). take k (drop a xs)) (let e : n - a ≡ suc n - suc a = omega arith in e)

  pub slice-join :
      (s : List A) (lo mid hi : ℕ)
      → lo ≤ mid
      → mid ≤ hi
      → slice s lo mid ++ slice s mid hi ≡ slice s lo hi
  slice-join s lo mid hi p q =
      let from : drop mid s ≡ drop (mid - lo) (drop lo s) =
        ap (λ (n : ℕ). drop n s) (let e : mid ≡ lo + (mid - lo) = omega arith in e)
        ∙ sym (drop-drop (mid - lo) lo s) in
      rw from (
        take-add (mid - lo) (hi - mid) (drop lo s)
        ∙ ap (λ (n : ℕ). take n (drop lo s))
            (let e : mid - lo + (hi - mid) ≡ hi - lo = omega arith in e))

  pub slice-slice :
      (s : List A) (lo hi a b : ℕ)
      → lo + b ≤ hi
      → slice (slice s lo hi) a b ≡ slice s (lo + a) (lo + b)
  slice-slice s lo hi a b h =
      ap (take (b - a)) (drop-take a (hi - lo) (drop lo s))
      ∙ take-take (b - a) (hi - lo - a) (drop a (drop lo s)) (omega arith)
      ∙ ap (take (b - a)) (drop-drop a lo s)
      ∙ ap (λ (n : ℕ). take n (drop (lo + a) s))
          (let e : b - a ≡ lo + b - (lo + a) = omega arith in e)
