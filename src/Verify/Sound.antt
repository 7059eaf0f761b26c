-- ===== src/Verify/Sound.antt =====
-- internal/downloader/verify.go: what a good report means.
use discord_free_cloud.Base.{
  ◌⊎◌, ℕ, zero, suc, ◌<◌, ◌≡◌, refl, sym, ap, ◌∙◌, List, [], ◌∷◌, ◌++◌, true, false, ◌||◌, some,
  none, Result, ok, err, ◌==◌, length, length-append, get_elem?, set, map, arith, Text, bytes_eq,
  Bool-cases, Option-cases, inl, inr,
}
use discord_free_cloud.Aead.{Aead, key_length}
use discord_free_cloud.Db.{FileRecord, ChunkRecord, Store, DbError}
use discord_free_cloud.Db.Files.{get_file}
use discord_free_cloud.Db.Chunks.{get_chunks_for_file}
use discord_free_cloud.Fetch.{DiscordApi, Engine, FetchError, fetch_chunk}
use discord_free_cloud.Verify.{
  VerifyError, ChunkVerdict, VerificationResult, first_gap, listed, without_gap, checked_rows,
  completed_chunks_for_file, no_verdict, judged, summed, result_of, fetch_all, judged_all,
  verify_parts, verify_row, verify_file,
}

-- the part at position `i` has index `i`, and so on
abbrev pub IsGapless : ℕ → List ChunkRecord → Type 0
IsGapless i [] = Unit {0}
IsGapless i (c ∷ cs) = (c.chunk_index ≡ i) × IsGapless (suc i) cs

first_gap-IsGapless :
    (i : ℕ) (parts : List ChunkRecord) → first_gap i parts ≡ none → IsGapless i parts
unfolding first_gap
first_gap-IsGapless i [] h = tt
first_gap-IsGapless i (c ∷ cs) h =
    (ground (arith, h), first_gap-IsGapless (suc i) cs (ground (arith, h)))

checked_rows-IsGapless :
    (r : Result DbError (List ChunkRecord) × Store) (parts : List ChunkRecord)
    → (checked_rows r).0 ≡ ok parts
    → IsGapless 0 parts
unfolding checked_rows without_gap
checked_rows-IsGapless (err e, s) parts h = absurd (cc)
checked_rows-IsGapless (ok rows, s) parts h = elim (Option-cases (first_gap 0 (listed rows))) [
  | inl none_missing ↦
      let h' : ok (listed rows) ≡ ok parts = rw none_missing at h in
      let same : listed rows ≡ parts = cc in
      first_gap-IsGapless 0 parts (ap (first_gap 0) (sym same) ∙ none_missing)
  | inr (i, gap) ↦ absurd (let h' : err (VerifyError.missing i) ≡ ok parts = rw gap at h in cc)
]

-- the bytes of the parts in their order
abbrev pub joined : List (List ℕ) → List ℕ
joined [] = []
joined (b ∷ bs) = b ++ joined bs

module _ (sha256_hex : List ℕ → Text) {W : Type 0} (api : DiscordApi W) (aead : Aead)
    (file_id : Text) (key : List ℕ) where
  -- the engine behind the fetch of the part at a position
  abbrev pub engine_behind : List ChunkRecord → ℕ → Engine W → Engine W
  engine_behind parts i e = elim (get_elem? parts i) [
    | none ↦ e
    | some c ↦ (fetch_chunk api aead file_id c key e).1
  ]

  -- In the fetches of the positions in the order, one after the other from an engine on, one is of the
  -- part and has this result.
  abbrev pub HasGiven :
      List ChunkRecord → List ℕ → Engine W → ChunkRecord → Result FetchError (List ℕ) → Type 0
  HasGiven parts [] e c r = ⊥
  HasGiven parts (i ∷ order) e c r =
      ((get_elem? parts i ≡ some c) × ((fetch_chunk api aead file_id c key e).0 ≡ r))
      ⊎ HasGiven parts order (engine_behind parts i e) c r

  -- what the fetches of a run can have given
  abbrev Outcomes : Type 1
  Outcomes = ChunkRecord → Result FetchError (List ℕ) → Type 0

  -- The bytes are outcomes of fetches, part by part, and have the hash that is recorded, if one is.
  abbrev pub AreFetched :
      (ChunkRecord → Result FetchError (List ℕ) → Type 0)
      → List ChunkRecord
      → List (List ℕ)
      → Type 0
  AreFetched gave [] [] = Unit {0}
  AreFetched gave [] (b ∷ bs) = ⊥
  AreFetched gave (c ∷ cs) [] = ⊥
  AreFetched gave (c ∷ cs) (b ∷ bs) =
      gave c (ok b)
      × ((bytes_eq c.sha256 [] || bytes_eq (sha256_hex b) c.sha256) ≡ true)
      × AreFetched gave cs bs

  -- what a slot can hold
  data IsSlot (gave : Outcomes) (c : ChunkRecord) (slot : ChunkVerdict × List ℕ) : Type 0 where
    untouched : slot ≡ (no_verdict, []) → IsSlot gave c slot
    filled :
        (r : Result FetchError (List ℕ))
        → gave c r
        → slot ≡ judged sha256_hex c r
        → IsSlot gave c slot

  abbrev AreSlots : Outcomes → List ChunkRecord → List (ChunkVerdict × List ℕ) → Type 0
  AreSlots gave [] [] = Unit {0}
  AreSlots gave [] (s ∷ ss) = ⊥
  AreSlots gave (c ∷ cs) [] = ⊥
  AreSlots gave (c ∷ cs) (s ∷ ss) = IsSlot gave c s × AreSlots gave cs ss

  fresh-AreSlots :
      (gave : Outcomes) (parts : List ChunkRecord)
      → AreSlots gave parts (map (λ (p : ChunkRecord). (no_verdict, [])) parts)
  fresh-AreSlots gave [] = tt
  fresh-AreSlots gave (c ∷ cs) = (untouched refl, fresh-AreSlots gave cs)

  set-AreSlots :
      (gave : Outcomes) (parts : List ChunkRecord) (slots : List (ChunkVerdict × List ℕ)) (i : ℕ)
      (c : ChunkRecord) (slot : ChunkVerdict × List ℕ)
      → AreSlots gave parts slots
      → get_elem? parts i ≡ some c
      → IsSlot gave c slot
      → AreSlots gave parts (set slots i slot)
  set-AreSlots gave [] [] i c slot v found new = absurd (cc)
  set-AreSlots gave [] (s ∷ ss) i c slot v found new = absurd v
  set-AreSlots gave (d ∷ ds) [] i c slot v found new = absurd v
  set-AreSlots gave (d ∷ ds) (s ∷ ss) zero c slot (own, v) found new =
      let same : d ≡ c = cc in (rw same new, v)
  set-AreSlots gave (d ∷ ds) (s ∷ ss) (suc i) c slot (own, v) found new =
      (own, set-AreSlots gave ds ss i c slot v found new)

  -- the slots behind fetches whose outcomes are among those of the run
  fetch_all-AreSlots :
      (gave : Outcomes) (order : List ℕ) (parts : List ChunkRecord)
      (slots : List (ChunkVerdict × List ℕ)) (e : Engine W)
      → ((c : ChunkRecord) (r : Result FetchError (List ℕ)) → HasGiven parts order e c r → gave c r)
      → AreSlots gave parts slots
      → AreSlots gave parts (fetch_all sha256_hex api aead file_id key order parts slots e).0
  unfolding fetch_all
  fetch_all-AreSlots gave [] parts slots e among v = v
  fetch_all-AreSlots gave (i ∷ order) parts slots e among v =
      elim (Option-cases (get_elem? parts i)) [
        | inl outside ↦
            rw (fetch_all, outside)
              (fetch_all-AreSlots gave order parts slots e
                (λ c r h. among c r (inr (rw (engine_behind, outside) h))) v)
        | inr (c, found) ↦
            let fetched = fetch_chunk api aead file_id c key e in
            rw (fetch_all, found)
              (fetch_all-AreSlots gave order parts _ fetched.1
                (λ d r h. among d r (inr (rw (engine_behind, found) h)))
                (set-AreSlots gave parts slots i c _ v found
                  (filled fetched.0 (among c fetched.0 (inl (found, refl))) refl)))
      ]

  -- A slot whose verdict is good has bytes that were fetched and match.
  good_slot :
      (c : ChunkRecord) (v : ChunkVerdict) (bytes : List ℕ) (r : Result FetchError (List ℕ))
      → (v, bytes) ≡ judged sha256_hex c r
      → v.is_ok ≡ true
      → (r ≡ ok bytes) × ((bytes_eq c.sha256 [] || bytes_eq (sha256_hex bytes) c.sha256) ≡ true)
  unfolding judged
  good_slot c v bytes (ok b) e h =
      let same : bytes ≡ b = ap (λ (t : ChunkVerdict × List ℕ). t.1) e in
      let good : (bytes_eq c.sha256 [] || bytes_eq (sha256_hex b) c.sha256) ≡ true =
        sym (ap (λ (t : ChunkVerdict × List ℕ). t.0.is_ok) e) ∙ h in
      (ap ok (sym same), rw same good)
  good_slot c v bytes (err f) e h =
      absurd
        (let bad : false ≡ true = sym (ap (λ (t : ChunkVerdict × List ℕ). t.0.is_ok) e) ∙ h in cc)

  summed-AreFetched :
      (gave : Outcomes) (parts : List ChunkRecord) (slots : List (ChunkVerdict × List ℕ))
      → AreSlots gave parts slots
      → (summed sha256_hex slots).0 ≡ true
      → (datas : List (List ℕ)) × AreFetched gave parts datas
        × ((summed sha256_hex slots).1 ≡ joined datas)
        × ((summed sha256_hex slots).2 ≡ length (joined datas))
  unfolding summed
  summed-AreFetched gave [] [] v h = ([], tt, refl, refl)
  summed-AreFetched gave [] (s ∷ ss) v h = absurd v
  summed-AreFetched gave (c ∷ cs) [] v h = absurd v
  summed-AreFetched gave (c ∷ cs) ((verdict, bytes) ∷ ss) (untouched e, v) h = absurd (
      let bad : verdict.is_ok ≡ false = ap (λ (t : ChunkVerdict × List ℕ). t.0.is_ok) e in
      let h' : false ≡ true = rw bad at h in cc)
  summed-AreFetched gave (c ∷ cs) ((verdict, bytes) ∷ ss) (filled r given same, v) h =
      elim (Bool-cases verdict.is_ok) [
        | inr bad ↦ absurd (let h' : false ≡ true = rw bad at h in cc)
        | inl good ↦
            let (datas, fetched, out, total) =
              summed-AreFetched gave cs ss v (ground (arith, h, good)) in
            let (got, match) = good_slot c verdict bytes r same good in
            rw good (
              bytes ∷ datas,
              (rw got at given, match, fetched),
              ap (λ l. bytes ++ l) out,
              omega (arith, length-append bytes (joined datas), total),
            )
      ]

  -- what a good report rests on, with the fetches of the run in their order
  abbrev pub Evidence : List ℕ → Engine W → Type 0
  Evidence order e =
      (f : FileRecord) × (parts : List ChunkRecord) × (datas : List (List ℕ)) × ((get_file file_id
          e.store).0
        ≡ ok f)
      × ((completed_chunks_for_file file_id (get_file file_id e.store).1).0 ≡ ok parts)
      × (0 < length parts)
      × IsGapless 0 parts
      × AreFetched
          (HasGiven parts order (record e {
            store = (completed_chunks_for_file file_id (get_file file_id e.store).1).1;
          }))
          parts datas
      × (length (joined datas) ≡ f.size)
      × ((bytes_eq f.sha256 [] || bytes_eq (sha256_hex (joined datas)) f.sha256) ≡ true)

  result_of_sound :
      (gave : Outcomes) (f : FileRecord) (parts : List ChunkRecord)
      (slots : List (ChunkVerdict × List ℕ))
      → AreSlots gave parts slots
      → (result_of sha256_hex f slots).all_ok ≡ true
      → (datas : List (List ℕ)) × AreFetched gave parts datas
        × (length (joined datas) ≡ f.size)
        × ((bytes_eq f.sha256 [] || bytes_eq (sha256_hex (joined datas)) f.sha256) ≡ true)
  unfolding result_of
  result_of_sound gave f parts slots v h =
      let good : (summed sha256_hex slots).0 ≡ true = ground (arith, h) in
      let (datas, fetched, out, total) = summed-AreFetched gave parts slots v good in
      let hash : (bytes_eq f.sha256 []
            || bytes_eq (sha256_hex (summed sha256_hex slots).1) f.sha256)
          ≡ true =
        ground (arith, h) in
      (datas, fetched, ground (arith, h, total), rw out at hash)

  verify_parts_sound :
      (order : List ℕ) (f : FileRecord) (e : Engine W)
      (r : Result VerifyError (List ChunkRecord) × Store) (res : VerificationResult)
      → (verify_parts sha256_hex api aead file_id key false order f e r).0 ≡ ok res
      → res.all_ok ≡ true
      → (parts : List ChunkRecord) × (datas : List (List ℕ)) × (r.0 ≡ ok parts)
        × (0 < length parts)
        × AreFetched (HasGiven parts order (record e { store = r.1 })) parts datas
        × (length (joined datas) ≡ f.size)
        × ((bytes_eq f.sha256 [] || bytes_eq (sha256_hex (joined datas)) f.sha256) ≡ true)
  unfolding verify_parts judged_all
  verify_parts_sound order f e (err fault, s) res h good = absurd (cc)
  verify_parts_sound order f e (ok [], s) res h good = absurd (cc)
  verify_parts_sound order f e (ok (c ∷ cs), s) res h good =
      let slots : List (ChunkVerdict × List ℕ) × Engine W =
        fetch_all sha256_hex api aead file_id key order (c ∷ cs)
          (map (λ (p : ChunkRecord). (no_verdict, [])) (c ∷ cs)) (record e { store = s }) in
      let gave : Outcomes = HasGiven (c ∷ cs) order (record e { store = s }) in
      let made : record (result_of sha256_hex f slots.0) { file_id = file_id } ≡ res =
        (let h' : ok (record (result_of sha256_hex f slots.0) { file_id = file_id }) ≡ ok res = h in
          cc) in
      let good' : (result_of sha256_hex f slots.0).all_ok ≡ true =
        ap (λ (t : VerificationResult). t.all_ok) made ∙ good in
      let (datas, fetched, size, hash) =
        result_of_sound gave f (c ∷ cs) slots.0
          (fetch_all-AreSlots gave order (c ∷ cs) _ _ (λ d t h. h) (fresh-AreSlots gave (c ∷ cs)))
          good' in
      (c ∷ cs, datas, refl, omega arith, fetched, size, hash)

  verify_row_sound :
      (order : List ℕ) (e : Engine W) (r : Result DbError FileRecord × Store)
      (res : VerificationResult)
      → (verify_row sha256_hex api aead file_id key false order e r).0 ≡ ok res
      → res.all_ok ≡ true
      → (f : FileRecord) × (parts : List ChunkRecord) × (datas : List (List ℕ)) × (r.0 ≡ ok f)
        × ((completed_chunks_for_file file_id r.1).0 ≡ ok parts)
        × (0 < length parts)
        × IsGapless 0 parts
        × AreFetched
            (HasGiven parts order (record e { store = (completed_chunks_for_file file_id r.1).1 }))
            parts
            datas
        × (length (joined datas) ≡ f.size)
        × ((bytes_eq f.sha256 [] || bytes_eq (sha256_hex (joined datas)) f.sha256) ≡ true)
  unfolding verify_row completed_chunks_for_file
  verify_row_sound order e (err fault, s) res h good = absurd (cc)
  verify_row_sound order e (ok f, s) res h good = elim (Bool-cases f.is_dir) [
    | inl folder ↦ absurd (let h' : err VerifyError.is_folder ≡ ok res = rw folder at h in cc)
    | inr plain ↦
        let (parts, datas, found, some_parts, fetched, size, hash) =
          verify_parts_sound order f e (completed_chunks_for_file file_id s) res (rw plain at h)
            good in
        (
          f,
          parts,
          datas,
          refl,
          found,
          some_parts,
          checked_rows-IsGapless (get_chunks_for_file file_id s) parts found,
          fetched,
          size,
          hash,
        )
  ]

  -- If `VerifyFile` has not been cancelled and reports a file as good, in whatever order its workers have
  -- fetched the parts: the catalog has the file and lists completed rows of its parts from 0 on without
  -- a gap, one at least; among the fetches of this run, each with the network, the catalog and the cache
  -- as those before it have left them, is one of each part that has given bytes, which match the
  -- recorded hash of the part, if it has one; and
  -- these bytes put together in their order are as long as the file and match its hash, if it has one.
  pub verify_file-Evidence :
      (order : List ℕ) (e : Engine W) (res : VerificationResult)
      → (verify_file sha256_hex api aead file_id key false order e).0 ≡ ok res
      → res.all_ok ≡ true
      → Evidence order e
  unfolding verify_file
  verify_file-Evidence order e res h good = elim (Bool-cases (length key == key_length)) [
    | inr wrong ↦ absurd (let h' : err VerifyError.locked ≡ ok res = rw wrong at h in cc)
    | inl unlocked ↦ verify_row_sound order e (get_file file_id e.store) res (rw unlocked at h) good
  ]
