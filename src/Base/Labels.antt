-- ===== src/Base/Labels.antt =====
-- Go strings as their bytes, and `strconv`'s decimal form of a natural number.
use Prim.Native.Char.{code}
use Prim.Native.String.{String}
use Prim.Native.Nat.{ℕ, zero, suc, ◌+◌, ◌-◌, ◌*◌, ◌/◌, ◌%◌, ◌<◌}
use mathlib.Core.Path.{◌≡◌, refl, sym, ap, ◌∙◌}
use mathlib.Core.Bool.{Bool, false, ◌||◌}
use mathlib.Core.List.{List, [], ◌∷◌, ◌++◌}
use native.Mathlib.Omega.{arith}
use discord_free_cloud.Base.Tests.{ltb, ◌==◌, if◌then◌else◌}

abbrev pub Text : Type 0
Text = List ℕ

-- The code points of a text: its bytes, if it is ASCII.
abbrev pub codes : String → Text
codes String.[] = []
codes (String.◌∷◌ c s) = code c ∷ codes s

digits : ℕ → ℕ → Text
digits zero n = []
digits (suc fuel) n =
    let rest = digits fuel (n / 10) in
    if ltb n 10 then (48 + n) ∷ [] else rest ++ ((48 + n % 10) ∷ [])

-- `%d` of a number that is not negative
pub dec : ℕ → Text
unfolding digits
dec n = digits (n + 1) n

-- `strconv.Atoi` of a text of digits, from an accumulator
pub value_from : ℕ → Text → ℕ
value_from acc [] = acc
value_from acc (c ∷ cs) = value_from (acc * 10 + (c - 48)) cs

value_from-append :
    (acc : ℕ) (xs : Text) (c : ℕ)
    → value_from acc (xs ++ (c ∷ [])) ≡ value_from acc xs * 10 + (c - 48)
unfolding value_from
value_from-append acc [] c = refl
value_from-append acc (x ∷ xs) c = value_from-append (acc * 10 + (x - 48)) xs c

value-digits : (fuel n : ℕ) → n < fuel → value_from 0 (digits fuel n) ≡ n
unfolding digits value_from
value-digits zero n h = absurd (omega arith)
value-digits (suc fuel) n h =
    ground
      (arith, value_from-append 0 (digits fuel (n / 10)) (48 + n % 10), value-digits fuel (n / 10))

-- A decimal form reads back as its number.
pub value-dec : (n : ℕ) → value_from 0 (dec n) ≡ n
unfolding dec
value-dec n = value-digits (n + 1) n (omega arith)

-- whether a character stands in a text
pub has_char : ℕ → Text → Bool
has_char c [] = false
has_char c (x ∷ xs) = (x == c) || has_char c xs

has_char-append : (c : ℕ) (xs ys : Text) → has_char c (xs ++ ys) ≡ (has_char c xs || has_char c ys)
unfolding has_char
has_char-append c [] ys = refl
has_char-append c (x ∷ xs) ys = ground (arith, has_char-append c xs ys)

no_colon-digits : (fuel n : ℕ) → has_char b':' (digits fuel n) ≡ false
unfolding digits has_char
no_colon-digits zero n = refl
no_colon-digits (suc fuel) n = ground (
  arith,
  no_colon-digits fuel (n / 10),
  has_char-append b':' (digits fuel (n / 10)) ((48 + n % 10) ∷ []),
)

-- Behind the last colon two equal texts agree, and before it too.
colon-split :
    (xs ys ds es : Text)
    → has_char b':' ds ≡ false
    → has_char b':' es ≡ false
    → xs ++ (b':' ∷ ds) ≡ ys ++ (b':' ∷ es)
    → (xs ≡ ys) × (ds ≡ es)
unfolding has_char
colon-split [] [] ds es p q e = ground arith
colon-split [] (y ∷ ys) ds es p q e = absurd (ground (arith, has_char-append b':' ys (b':' ∷ es)))
colon-split (x ∷ xs) [] ds es p q e = absurd (ground (arith, has_char-append b':' xs (b':' ∷ ds)))
colon-split (x ∷ xs) (y ∷ ys) ds es p q e = ground (arith, colon-split xs ys ds es)

-- `fmt.Sprintf("%s:%d", name, n)`
pub label : Text → ℕ → Text
label name n = name ++ (b':' ∷ dec n)

-- A label names one text and one number.
pub label_injective :
    (name name' : Text) (n n' : ℕ) → label name n ≡ label name' n' → (name ≡ name') × (n ≡ n')
unfolding label dec
label_injective name name' n n' e =
    let (same, digits_same) =
      colon-split name name' (dec n) (dec n') (no_colon-digits (n + 1) n)
        (no_colon-digits (n' + 1) n') e in
    (same, sym (value-dec n) ∙ ap (value_from 0) digits_same ∙ value-dec n')
