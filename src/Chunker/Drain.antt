-- ===== src/Chunker/Drain.antt =====
-- internal/chunker/fastcdc.go: the reference for `Split`, a recursion that cuts the whole input
-- without a buffer, and what its chunks are.
use Prim.Native.String.{String}
use discord_free_cloud.Base.{
  ℕ, zero, suc, ◌+◌, ◌≤◌, ◌<◌, ◌≡◌, ◌≢◌, refl, ap, sym, ◌∙◌, List, [], ◌∷◌, ◌++◌, length, take,
  drop, arith, append_assoc, append-nil, length-take, length-drop, take-append-drop, Bool-cases,
  inl, inr, ltb, ltb→lt, drop_of_length-le,
}
use discord_free_cloud.Chunker.{Chunk, FastCdc, next_cut, cut_chunk, drain, chunks}
use discord_free_cloud.Chunker.Cut.{IsOrdered, next_cut_bounds, next_cut_positive}

module _ (sha256_hex : List ℕ → String) (c : FastCdc) where
  pieces : ℕ → (index offset : ℕ) → List ℕ → List Chunk
  pieces zero index offset input = []
  pieces (suc fuel) index offset [] = []
  pieces (suc fuel) index offset (b ∷ bs) =
      let cut = next_cut c (b ∷ bs) in
      cut_chunk sha256_hex c index offset (b ∷ bs)
      ∷ pieces fuel (index + 1) (offset + cut) (drop cut (b ∷ bs))

  -- The chunks of an input, from the number and the offset of the first.
  pub reference : (index offset : ℕ) → List ℕ → List Chunk
  unfolding pieces
  reference index offset input = pieces (length input) index offset input

  rest_shorter :
      (b : ℕ) (bs : List ℕ)
      → IsOrdered c
      → length (drop (next_cut c (b ∷ bs)) (b ∷ bs)) < length (b ∷ bs)
  rest_shorter b bs v = omega (
    arith,
    length-drop (next_cut c (b ∷ bs)) (b ∷ bs),
    next_cut_positive c (b ∷ bs) v (omega arith),
  )

  pieces_fuel :
      (f g i o : ℕ) (input : List ℕ)
      → IsOrdered c
      → length input ≤ f
      → length input ≤ g
      → pieces f i o input ≡ pieces g i o input
  unfolding pieces
  pieces_fuel zero zero i o input v p q = refl
  pieces_fuel zero (suc g) i o [] v p q = refl
  pieces_fuel zero (suc g) i o (b ∷ bs) v p q = absurd (omega arith)
  pieces_fuel (suc f) zero i o [] v p q = refl
  pieces_fuel (suc f) zero i o (b ∷ bs) v p q = absurd (omega arith)
  pieces_fuel (suc f) (suc g) i o [] v p q = refl
  pieces_fuel (suc f) (suc g) i o (b ∷ bs) v p q = ap (◌∷◌ (cut_chunk sha256_hex c i o (b ∷ bs))) (
      pieces_fuel f g (i + 1) (o + next_cut c (b ∷ bs)) (drop (next_cut c (b ∷ bs)) (b ∷ bs)) v
        (omega (arith, rest_shorter b bs v)) (omega (arith, rest_shorter b bs v)))

  pub reference-nil : (i o : ℕ) → reference i o [] ≡ []
  unfolding reference
  reference-nil i o = refl

  pub reference-cons :
      (i o b : ℕ) (bs : List ℕ)
      → IsOrdered c
      → reference i o (b ∷ bs)
        ≡ cut_chunk sha256_hex c i o (b ∷ bs)
          ∷ reference (i + 1) (o + next_cut c (b ∷ bs)) (drop (next_cut c (b ∷ bs)) (b ∷ bs))
  unfolding reference
  reference-cons i o b bs v = ap (◌∷◌ (cut_chunk sha256_hex c i o (b ∷ bs))) (
      pieces_fuel (length bs) _ (i + 1) (o + next_cut c (b ∷ bs))
        (drop (next_cut c (b ∷ bs)) (b ∷ bs)) v (omega (arith, rest_shorter b bs v)) (omega arith))

  -- The inner loop of `Split` adds the chunks of what is left in the buffer.
  pub drain-reference :
      (fuel i o : ℕ) (buf : List ℕ) (out : List Chunk)
      → IsOrdered c
      → length buf ≤ fuel
      → drain sha256_hex c fuel i o buf out ≡ chunks (out ++ reference i o buf)
  unfolding drain
  drain-reference zero i o [] out v h = rw (reference-nil, append-nil)
  drain-reference zero i o (b ∷ bs) out v h = absurd (omega arith)
  drain-reference (suc fuel) i o [] out v h = rw (reference-nil, append-nil)
  drain-reference (suc fuel) i o (b ∷ bs) out v h =
      drain-reference fuel (i + 1) (o + next_cut c (b ∷ bs)) (drop (next_cut c (b ∷ bs)) (b ∷ bs))
        (out ++ (cut_chunk sha256_hex c i o (b ∷ bs) ∷ [])) v (omega (arith, rest_shorter b bs v))
      ∙ rw (reference-cons i o b bs v, append_assoc)

  -- Chunks numbered from `i`, laid end to end from the offset `o`, each with its hash.
  abbrev pub Laid : (i o : ℕ) → List Chunk → Type 0
  Laid i o [] = Unit {0}
  Laid i o (ch ∷ cs) =
      (ch.index ≡ i)
      × (ch.offset ≡ o)
      × (ch.len ≡ length ch.bytes)
      × (ch.sha256_hash ≡ sha256_hex ch.bytes)
      × Laid (i + 1) (o + length ch.bytes) cs

  -- No chunk is empty or above the largest size, and only the last may be as small as the least.
  abbrev pub Sized : List Chunk → Type 0
  Sized [] = Unit {0}
  Sized (ch ∷ cs) =
      (0 < ch.len) × (ch.len ≤ c.max_size) × (cs ≢ [] → c.min_size < ch.len) × Sized cs

abbrev pub joined : List Chunk → List ℕ
joined [] = []
joined (ch ∷ cs) = ch.bytes ++ joined cs

module _ (sha256_hex : List ℕ → String) (c : FastCdc) (v : IsOrdered c) where
  joined-pieces :
      (fuel i o : ℕ) (input : List ℕ)
      → length input ≤ fuel
      → joined (pieces sha256_hex c fuel i o input) ≡ input
  unfolding pieces cut_chunk
  joined-pieces zero i o [] h = refl
  joined-pieces zero i o (b ∷ bs) h = absurd (omega arith)
  joined-pieces (suc fuel) i o [] h = refl
  joined-pieces (suc fuel) i o (b ∷ bs) h =
      let cut : ℕ = next_cut c (b ∷ bs) in
      rw
        (joined-pieces fuel (i + 1) (o + cut) (drop cut (b ∷ bs))
          (omega (arith, rest_shorter sha256_hex c b bs v)))
        (take-append-drop cut (b ∷ bs))

  pieces-Laid :
      (fuel i o : ℕ) (input : List ℕ) → Laid sha256_hex c i o (pieces sha256_hex c fuel i o input)
  unfolding pieces cut_chunk
  pieces-Laid zero i o input = tt
  pieces-Laid (suc fuel) i o [] = tt
  pieces-Laid (suc fuel) i o (b ∷ bs) =
      let cut : ℕ = next_cut c (b ∷ bs) in
      let inside : length (take cut (b ∷ bs)) ≡ cut =
        omega (arith, length-take cut (b ∷ bs), next_cut_bounds c (b ∷ bs) v) in
      (
        refl,
        refl,
        sym inside,
        refl,
        rw inside (pieces-Laid fuel (i + 1) (o + cut) (drop cut (b ∷ bs))),
      )

  pieces-nil : (fuel i o : ℕ) → pieces sha256_hex c fuel i o [] ≡ []
  unfolding pieces
  pieces-nil zero i o = refl
  pieces-nil (suc fuel) i o = refl

  -- An input within the least size is cut as a whole.
  large_of_rest :
      (fuel i o : ℕ) (input : List ℕ)
      → pieces sha256_hex c fuel i o (drop (next_cut c input) input) ≢ []
      → c.min_size < next_cut c input
  large_of_rest fuel i o input more = elim (Bool-cases (ltb c.min_size (length input))) [
    | inl large ↦ (next_cut_bounds c input v).1 (ltb→lt _ _ large)
    | inr small ↦
        let whole : next_cut c input ≡ length input =
          (next_cut_bounds c input v).0 (ground arith) in
        absurd (
          more (
            rw (whole, drop_of_length-le (length input) input (omega arith)) (pieces-nil fuel i o)))
  ]

  pieces-Sized :
      (fuel i o : ℕ) (input : List ℕ) → Sized sha256_hex c (pieces sha256_hex c fuel i o input)
  unfolding pieces cut_chunk
  pieces-Sized zero i o input = tt
  pieces-Sized (suc fuel) i o [] = tt
  pieces-Sized (suc fuel) i o (b ∷ bs) =
      let cut : ℕ = next_cut c (b ∷ bs) in
      (
        next_cut_positive c (b ∷ bs) v (omega arith),
        (next_cut_bounds c (b ∷ bs) v).3,
        large_of_rest fuel (i + 1) (o + cut) (b ∷ bs),
        pieces-Sized fuel (i + 1) (o + cut) (drop cut (b ∷ bs)),
      )

  -- The chunks of an input join to the input, follow one another in order without a gap, and
  -- keep to the sizes.
  pub reference_lem :
      (input : List ℕ)
      → (joined (reference sha256_hex c 0 0 input) ≡ input)
        × Laid sha256_hex c 0 0 (reference sha256_hex c 0 0 input)
        × Sized sha256_hex c (reference sha256_hex c 0 0 input)
  unfolding reference
  reference_lem input = (
    joined-pieces (length input) 0 0 input (omega arith),
    pieces-Laid (length input) 0 0 input,
    pieces-Sized (length input) 0 0 input,
  )
