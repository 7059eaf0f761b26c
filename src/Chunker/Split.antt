-- ===== src/Chunker/Split.antt =====
-- internal/chunker/fastcdc.go: `Split` through its buffer, against the reference.
use Prim.Native.String.{String}
use discord_free_cloud.Base.{
  ℕ, zero, suc, ◌+◌, ◌-◌, ◌*◌, ◌≤◌, ◌<◌, ◌≡◌, ◌≢◌, refl, ap, ◌∙◌, List, [], ◌∷◌, ◌++◌, length, take,
  drop, arith, append_assoc, append-nil, length-take, length-drop, length-append, Bool-cases, inl,
  inr, leb, leb→le, le→leb, drop_of_length-le, take_of_length-le, false, take-append-drop,
  take-append, drop-append, some, none, Option, ◌⊎◌, nil_of_length, ◌==◌,
}
use discord_free_cloud.Chunker.{
  Chunk, FastCdc, next_cut, cut_chunk, chunks, failed, Reader, Ending, eof, fault, read_full,
  after_read, split_loop, split, Outcome,
}
use discord_free_cloud.Chunker.Cut.{IsOrdered, next_cut_bounds, next_cut_positive, next_cut-append}
use discord_free_cloud.Chunker.Drain.{
  reference, reference-nil, reference-cons, drain-reference, joined, Laid, Sized, reference_lem,
}

module _ (sha256_hex : List ℕ → String) (c : FastCdc) (v : IsOrdered c) where
  -- the buffer without the chunk that is cut from it
  abbrev rest : List ℕ → List ℕ
  rest buf = drop (next_cut c buf) buf

  -- what is free in the buffer
  abbrev room : List ℕ → ℕ
  room buf = c.max_size * 2 - length buf

  long_read :
      (r : Reader) (k : ℕ)
      → k ≤ length r.content
      → read_full r k ≡ (take k r.content, none, record r { content = drop k r.content })
  unfolding read_full
  long_read r k full = rw (le→leb k (length r.content) full)

  short_read :
      (r : Reader) (k : ℕ)
      → length r.content < k
      → read_full r k ≡ (r.content, some r.ending, record r { content = [] })
  unfolding read_full
  short_read r k short =
      let partial : leb k (length r.content) ≡ false = ground arith in
      rw (
        partial,
        take_of_length-le k r.content (omega arith),
        drop_of_length-le k r.content (omega arith),
      )

  split_loop-read :
      (fuel : ℕ) (r r' : Reader) (i o : ℕ) (buf got : List ℕ) (out : List Chunk) (e : Option Ending)
      → read_full r (room buf) ≡ (got, e, r')
      → split_loop sha256_hex c (suc fuel) r i o buf out
        ≡ after_read sha256_hex c (split_loop sha256_hex c fuel) i o out e (buf ++ got) r'
  unfolding split_loop
  split_loop-read fuel r r' i o buf got out e h =
      ap
        (λ (t : List ℕ × Option Ending × Reader).
          after_read sha256_hex c (split_loop sha256_hex c fuel) i o out t.1 (buf ++ t.0) t.2)
        h

  -- Whatever else a read gives, the chunk at the front of a buffer that is not empty is cut off.
  after_read-again :
      (again : Reader → ℕ → ℕ → List ℕ → List Chunk → Outcome)
      → (i o : ℕ) (out : List Chunk) (e : Option Ending) (buf : List ℕ) (r : Reader) → e ≢ some eof
      → 0 < length buf
      → after_read sha256_hex c again i o out e buf r
        ≡ again r
            (i + 1)
            (o + next_cut c buf)
            (rest buf)
            (out ++ (cut_chunk sha256_hex c i o buf ∷ []))
  unfolding after_read
  after_read-again again i o out none [] r other h = absurd (omega arith)
  after_read-again again i o out (some e) [] r other h = absurd (omega arith)
  after_read-again again i o out none (b ∷ bs) r other h = refl
  after_read-again again i o out (some eof) (b ∷ bs) r other h = absurd (other refl)
  after_read-again again i o out (some fault) (b ∷ bs) r other h = refl

  -- At the end of the input the chunks of the buffer are added.
  after_read-eof :
      (again : Reader → ℕ → ℕ → List ℕ → List Chunk → Outcome)
      → (i o : ℕ) (out : List Chunk) (buf : List ℕ) (r : Reader)
      → after_read sha256_hex c again i o out (some eof) buf r
        ≡ chunks (out ++ reference sha256_hex c i o buf)
  unfolding after_read
  after_read-eof again i o out [] r = rw (reference-nil, append-nil)
  after_read-eof again i o out (b ∷ bs) r =
      drain-reference sha256_hex c (length (b ∷ bs)) (i + 1) (o + next_cut c (b ∷ bs))
        (rest (b ∷ bs)) (out ++ (cut_chunk sha256_hex c i o (b ∷ bs) ∷ [])) v
        (omega (arith, length-drop (next_cut c (b ∷ bs)) (b ∷ bs)))
      ∙ rw (reference-cons sha256_hex c i o b bs v, append_assoc)

  -- A round cuts a byte off the bytes to come, and the buffer stays within its size.
  rest-lengths :
      (buf content : List ℕ) (k : ℕ)
      → k ≡ c.max_size * 2 - length buf
      → length buf ≤ c.max_size * 2
      → let buf1 = buf ++ take k content in
        (0 < length (buf ++ content)
          → length (rest buf1 ++ drop k content) < length (buf ++ content))
        × (length (rest buf1) ≤ c.max_size * 2)
  rest-lengths buf content k e small =
      let buf1 : List ℕ = buf ++ take k content in
      let whole : length (buf ++ content) ≡ length buf + length content =
        length-append buf content in
      let len1 : length buf1 ≡ length buf + length (take k content) =
        length-append buf (take k content) in
      let some_cut : 0 < length buf1 → 0 < next_cut c buf1 = next_cut_positive c buf1 v in
      let len2 : length (rest buf1) ≡ length buf1 - next_cut c buf1 =
        length-drop (next_cut c buf1) buf1 in
      let len3 : length (rest buf1 ++ drop k content)
          ≡ length (rest buf1) + length (drop k content) =
        length-append (rest buf1) (drop k content) in
      let inside : next_cut c buf1 ≤ length buf1 = (next_cut_bounds c buf1 v).2 in
      let positive : 0 < c.max_size = omega (arith, v) in
      (
        ground (arith, length-take k content, length-drop k content),
        omega (arith, length-take k content),
      )

  reference-front :
      (i o : ℕ) (all : List ℕ)
      → 0 < length all
      → reference sha256_hex c i o all
        ≡ cut_chunk sha256_hex c i o all
          ∷ reference sha256_hex c (i + 1) (o + next_cut c all) (rest all)
  reference-front i o [] h = absurd (omega arith)
  reference-front i o (b ∷ bs) h = reference-cons sha256_hex c i o b bs v

  -- Cutting a buffer as long as the largest size is cutting all the bytes to come.
  reference-full :
      (i o : ℕ) (buf back : List ℕ)
      → c.max_size ≤ length buf
      → reference sha256_hex c i o (buf ++ back)
        ≡ cut_chunk sha256_hex c i o buf
          ∷ reference sha256_hex c (i + 1) (o + next_cut c buf) (rest buf ++ back)
  unfolding cut_chunk
  reference-full i o buf back h =
      let n : ℕ = next_cut c buf in
      let inside : n ≤ length buf = (next_cut_bounds c buf v).2 in
      let none_back : n - length buf ≡ 0 = omega arith in
      reference-front i o (buf ++ back) (omega (arith, length-append buf back, v))
      ∙ rw (
        next_cut-append c buf back v h,
        take-append n buf back inside,
        drop-append buf back n,
        none_back,
      )

  split_loop-reference :
      (fuel : ℕ) (r : Reader) (i o : ℕ) (buf : List ℕ) (out : List Chunk)
      → r.ending ≡ eof
      → length buf ≤ c.max_size * 2
      → length (buf ++ r.content) < fuel
      → split_loop sha256_hex c fuel r i o buf out
        ≡ chunks (out ++ reference sha256_hex c i o (buf ++ r.content))
  split_loop-reference zero r i o buf out ends small enough = absurd (omega arith)
  split_loop-reference (suc fuel) r i o buf out ends small enough =
      let k : ℕ = room buf in
      let buf1 : List ℕ = buf ++ take k r.content in
      let (fewer, small') = rest-lengths buf r.content k refl small in
      let whole : buf1 ++ drop k r.content ≡ buf ++ r.content =
        append_assoc buf (take k r.content) (drop k r.content)
        ∙ rw (take-append-drop k r.content) in
      elim (Bool-cases (leb k (length r.content))) [
        | inr short ↦
            split_loop-read fuel r _ i o buf _ out _ (short_read r k (ground arith))
            ∙ rw ends (after_read-eof (split_loop sha256_hex c fuel) i o out (buf ++ r.content) _)
        | inl full ↦
            let fill : length buf1 ≡ c.max_size * 2 =
              ground (arith, length-append buf (take k r.content), length-take k r.content) in
            let positive : 0 < length (buf ++ r.content) = omega (
              arith,
              v,
              length-append buf (take k r.content),
              length-append buf r.content,
              length-take k r.content,
            ) in
            split_loop-read fuel r _ i o buf _ out _ (long_read r k (leb→le _ _ full))
            ∙ after_read-again (split_loop sha256_hex c fuel) i o out none buf1 _ (cc)
                (omega (arith, v))
            ∙ split_loop-reference fuel (record r { content = drop k r.content }) (i + 1)
                (o + next_cut c buf1) (rest buf1) (out ++ (cut_chunk sha256_hex c i o buf1 ∷ []))
                ends small' (omega (arith, fewer positive))
            ∙ rw (← whole, reference-full i o buf1 (drop k r.content) (omega arith), append_assoc)
      ]

  -- Where the reader fails, every round passes on what it cut, and the last one fails.
  after_read-fault_nil :
      (again : Reader → ℕ → ℕ → List ℕ → List Chunk → Outcome) (i o : ℕ) (out : List Chunk)
      (r : Reader)
      → after_read sha256_hex c again i o out (some fault) [] r ≡ failed
  unfolding after_read
  after_read-fault_nil again i o out r = refl

  -- What a read leaves to the next round, whether it filled the buffer or not.
  read_any :
      (r : Reader) (k : ℕ)
      → (e : Option Ending) × (read_full r k
          ≡ (take k r.content, e, record r { content = drop k r.content }))
        × ((e ≡ none) × (k ≤ length r.content) ⊎ (e ≡ some r.ending) × (length r.content < k))
  unfolding read_full
  read_any r k = elim (Bool-cases (leb k (length r.content))) [
    | inl full ↦ (none, rw full, inl (refl, leb→le _ _ full))
    | inr short ↦ (some r.ending, rw short, inr (refl, ground arith))
  ]

  split_loop-failed :
      (fuel : ℕ) (r : Reader) (i o : ℕ) (buf : List ℕ) (out : List Chunk)
      → r.ending ≡ fault
      → length buf ≤ c.max_size * 2
      → length (buf ++ r.content) < fuel
      → split_loop sha256_hex c fuel r i o buf out ≡ failed
  split_loop-failed zero r i o buf out ends small enough = absurd (omega arith)
  split_loop-failed (suc fuel) r i o buf out ends small enough =
      let k : ℕ = room buf in
      let buf1 : List ℕ = buf ++ take k r.content in
      let r' : Reader = record r { content = drop k r.content } in
      let (e, read, why) = read_any r k in
      split_loop-read fuel r r' i o buf (take k r.content) out e read
      ∙ elim (Bool-cases (length buf1 == 0)) [
        | inl empty ↦
            let nothing : buf1 ≡ [] = nil_of_length buf1 (ground arith) in
            let fails : e ≡ some fault =
              ground (arith, v, length-append buf (take k r.content), length-take k r.content) in
            rw (nothing, fails) (after_read-fault_nil (split_loop sha256_hex c fuel) i o out r')
        | inr some_left ↦
            let (fewer, small') = rest-lengths buf r.content k refl small in
            let others : e ≢ some eof = ground arith in
            let positive : 0 < length buf1 = ground arith in
            after_read-again (split_loop sha256_hex c fuel) i o out e buf1 r' others positive
            ∙ split_loop-failed fuel r' (i + 1) (o + next_cut c buf1) (rest buf1)
                (out ++ (cut_chunk sha256_hex c i o buf1 ∷ [])) ends small'
                (omega (
                  arith,
                  fewer (
                      omega (
                        arith,
                        length-append buf r.content,
                        length-append buf (take k r.content),
                        length-take k r.content,
                      )),
                ))
      ]

  -- With a positive least size below the largest size, `Split` through its buffer of twice the largest size returns the chunks of the reference, if
  -- the reader ends with `io.EOF`; it fails if the reader fails. It always ends.
  pub split-reference :
      (r : Reader)
      → (r.ending ≡ eof → split sha256_hex c r ≡ chunks (reference sha256_hex c 0 0 r.content))
        × (r.ending ≡ fault → split sha256_hex c r ≡ failed)
  unfolding split
  split-reference r = (
    λ ends.
        split_loop-reference (length r.content + 1) r 0 0 [] [] ends (omega arith) (omega arith),
    λ ends. split_loop-failed (length r.content + 1) r 0 0 [] [] ends (omega arith) (omega arith),
  )

  -- With a positive least size below the largest size, `Split` of a reader that ends with `io.EOF` returns chunks that join to the content, that are
  -- numbered from 0 and laid end to end from offset 0, each with its length and its hash, none
  -- empty or above the largest size, and all but the last above the least size.
  pub split-joined :
      (r : Reader)
      → r.ending ≡ eof
      → (cs : List Chunk) × (split sha256_hex c r ≡ chunks cs)
        × (joined cs ≡ r.content)
        × Laid sha256_hex c 0 0 cs
        × Sized sha256_hex c cs
  split-joined r ends =
      let (joins, laid, sized) = reference_lem sha256_hex c v r.content in
      (reference sha256_hex c 0 0 r.content, (split-reference r).0 ends, joins, laid, sized)
