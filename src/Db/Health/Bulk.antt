-- ===== src/Db/Health/Bulk.antt =====
-- internal/db/db.go: what `BulkChunkHealth` says of a file.
use discord_free_cloud.Base.{
  and_on, ℕ, zero, suc, ◌≤◌, List, [], ◌∷◌, true, false, ◌||◌, Option, some, none, ok, arith, ◌≡◌,
  refl, sym, ap, ◌∙◌, Bool-cases, inl, inr, length, take, drop, if◌then◌else◌, Text, bytes_eq,
  bytes_eq→eq, lookup, lookup-insert, has, has-append, AllDistinct, take-append-drop, length-drop,
}
use discord_free_cloud.Db.{ChunkRecord, Store}
use discord_free_cloud.Db.Faults.{query-online}
use discord_free_cloud.Db.Rows.{select}
use discord_free_cloud.Db.Health.{
  ChunkHealth, Tally, empty_tally, or_empty_tally, add_row, tally_rows, add_by_file, bulk_tallies,
  healths, health_map, health_of, bulk_chunk_health, max_ids,
}

abbrev pub of_file : Text → List ChunkRecord → List ChunkRecord
of_file id = select (λ c. bytes_eq c.file_id id)

-- the tally of a file behind more of its rows
tally_with : Option Tally → List ChunkRecord → Option Tally
tally_with o [] = o
tally_with o (c ∷ cs) = tally_with (some (add_row (or_empty_tally o) c)) cs

lookup-add_by_file :
    (id : Text) (cs : List ChunkRecord) (tallies : List (Text × Tally))
    → lookup id (add_by_file tallies cs) ≡ tally_with (lookup id tallies) (of_file id cs)
unfolding add_by_file tally_with select
lookup-add_by_file id [] tallies = refl
lookup-add_by_file id (c ∷ cs) tallies =
    lookup-add_by_file id cs _ ∙ elim (Bool-cases (bytes_eq c.file_id id)) [
      | inl e ↦
          let same : lookup c.file_id tallies ≡ lookup id tallies =
            ap (λ k. lookup k tallies) (bytes_eq→eq c.file_id id e) in
          rw
            (
              lookup-insert c.file_id id (add_row (or_empty_tally (lookup c.file_id tallies)) c)
                  tallies,
              e,
              same,
            )
            refl
      | inr e ↦
          rw
            (
              lookup-insert c.file_id id (add_row (or_empty_tally (lookup c.file_id tallies)) c)
                  tallies,
              e,
            )
            refl
    ]

-- the rows of a file among those of a batch
of_file-batch :
    (id : Text) (batch : List Text) (cs : List ChunkRecord)
    → of_file id (select (λ c. has c.file_id batch) cs)
      ≡ (if has id batch then of_file id cs else [])
unfolding select
of_file-batch id batch [] = elim (Bool-cases (has id batch)) [
  | inl h ↦ rw h refl
  | inr h ↦ rw h refl
]
of_file-batch id batch (c ∷ cs) = elim (Bool-cases (bytes_eq c.file_id id)) [
  | inl e ↦
      let same : has c.file_id batch ≡ has id batch =
        ap (λ k. has k batch) (bytes_eq→eq c.file_id id e) in
      elim (Bool-cases (has id batch)) [
        | inl h ↦
            rw (same, h, e)
              (ap (◌∷◌ c) (of_file-batch id batch cs ∙ ap (λ b. if b then of_file id cs else []) h))
        | inr h ↦
            rw (same, h) (of_file-batch id batch cs ∙ ap (λ b. if b then of_file id cs else []) h)
      ]
  | inr e ↦ elim (Bool-cases (has c.file_id batch)) [
    | inl h ↦ rw (h, e) (of_file-batch id batch cs)
    | inr h ↦ rw (h, e) (of_file-batch id batch cs)
  ]
]

lookup-healths :
    (id : Text) (tallies : List (Text × Tally))
    → lookup id (healths tallies)
      ≡ elim (lookup id tallies) [ none ↦ none | some t ↦ some (health_of t) ]
unfolding healths lookup
lookup-healths id [] = refl
lookup-healths id ((other, t) ∷ rest) = elim (Bool-cases (bytes_eq other id)) [
  | inl e ↦ rw e refl
  | inr e ↦ rw e (lookup-healths id rest)
]

has-drop : (id : Text) (n : ℕ) (ids : List Text) → has id ids ≡ false → has id (drop n ids) ≡ false
unfolding has
has-drop id zero ids h = h
has-drop id (suc n) [] h = h
has-drop id (suc n) (x ∷ ids) h = has-drop id n ids (ground arith)

drop-AllDistinct : (n : ℕ) (ids : List Text) → AllDistinct ids → AllDistinct (drop n ids)
drop-AllDistinct zero ids d = d
drop-AllDistinct (suc n) [] d = d
drop-AllDistinct (suc n) (x ∷ ids) (fresh, d) = drop-AllDistinct n ids d

-- an id of a batch is not among the ids behind it
take_or_drop :
    (id : Text) (n : ℕ) (ids : List Text)
    → AllDistinct ids
    → has id (take n ids) ≡ true
    → has id (drop n ids) ≡ false
unfolding has
take_or_drop id zero ids d = λ h. absurd (ground arith)
take_or_drop id (suc n) [] d = λ h. absurd (ground arith)
take_or_drop id (suc n) (x ∷ ids) (fresh, d) = elim (Bool-cases (bytes_eq x id)) [
  | inl e ↦ λ h. has-drop id n ids (ap (λ k. has k ids) (sym (bytes_eq→eq x id e)) ∙ fresh)
  | inr e ↦ rw e (λ h. take_or_drop id n ids d h)
]

has-take-drop :
    (id : Text) (n : ℕ) (ids : List Text)
    → has id ids ≡ (has id (take n ids) || has id (drop n ids))
has-take-drop id n ids =
    ap (has id) (sym (take-append-drop n ids)) ∙ has-append id (take n ids) (drop n ids)

-- the tally of a file behind the batches of some ids
abbrev Tallied : List Text → Store → List (Text × Tally) → List (Text × Tally) → Type 0
Tallied ids s before after =
    (id : Text)
    → lookup id after ≡ (
        if has id ids
        then tally_with (lookup id before) (of_file id s.chunks)
        else lookup id before)

batch-Tallied :
    (n : ℕ) (ids : List Text) (s : Store) (tallies after : List (Text × Tally))
    → AllDistinct ids
    → Tallied
        (drop n ids)
        s
        (add_by_file tallies (select (λ c. has c.file_id (take n ids)) s.chunks))
        after
    → Tallied ids s tallies after
unfolding tally_with
batch-Tallied n ids s tallies after d rest id =
    let first =
      lookup-add_by_file id (select (λ c. has c.file_id (take n ids)) s.chunks) tallies
      ∙ ap (tally_with (lookup id tallies)) (of_file-batch id (take n ids) s.chunks) in
    rest id
    ∙ rw (first, has-take-drop id n ids)
        (elim (Bool-cases (has id (take n ids))) [
          | inl h ↦ rw (h, take_or_drop id n ids d h) refl
          | inr h ↦ rw h refl
        ])

bulk_tallies-Tallied :
    (fuel size : ℕ) (ids : List Text) (tallies : List (Text × Tally)) (s : Store)
    → 1 ≤ size
    → length ids ≤ fuel
    → s.faults ≡ []
    → AllDistinct ids
    → (after : List (Text × Tally)) × ((bulk_tallies fuel size ids tallies s ≡ (ok after, s))
        × Tallied ids s tallies after)
unfolding bulk_tallies has and_on
bulk_tallies-Tallied zero size [] tallies s some_ids enough online d = (tallies, (refl, λ id. refl))
bulk_tallies-Tallied zero size (x ∷ ids) tallies s some_ids enough online d = absurd (omega arith)
bulk_tallies-Tallied (suc fuel) size [] tallies s some_ids enough online d =
    (tallies, (refl, λ id. refl))
bulk_tallies-Tallied (suc fuel) size (x ∷ ids) tallies s some_ids enough online d =
    let found = add_by_file tallies (select (λ c. has c.file_id (take size (x ∷ ids))) s.chunks) in
    let (after, (ran, tallied)) =
      bulk_tallies-Tallied fuel size (drop size (x ∷ ids)) found s some_ids
        (omega (arith, length-drop size (x ∷ ids))) online (drop-AllDistinct size (x ∷ ids) d) in
    (
      after,
      (
        rw
            (
              query-online (λ t. ok (select (λ c. has c.file_id (take size (x ∷ ids))) t.chunks)) s
                  online,
              bulk_tallies,
            )
            ran,
        batch-Tallied size (x ∷ ids) s tallies after d tallied,
      ),
    )

-- The tally of a file that has rows is the fold over them.
tally_with-rows :
    (cs : List ChunkRecord) (t : Tally) → tally_with (some t) cs ≡ some (tally_rows t cs)
unfolding tally_with tally_rows or_empty_tally
tally_with-rows [] t = refl
tally_with-rows (c ∷ cs) t = tally_with-rows cs (add_row t c)

-- what the health of a file is, by its rows
abbrev pub rows_health : List ChunkRecord → Option ChunkHealth
rows_health [] = none
rows_health (c ∷ cs) = some (health_of (tally_rows empty_tally (c ∷ cs)))

rows_of :
    (cs : List ChunkRecord)
    → elim (tally_with none cs) as (λ _. Option ChunkHealth) [
      | none ↦ none
      | some t ↦ some (health_of t)
    ]
      ≡ rows_health cs
unfolding tally_with tally_rows or_empty_tally
rows_of [] = refl
rows_of (c ∷ cs) = rw (tally_with-rows cs (add_row empty_tally c)) refl

-- While the catalog can be reached, the bulk query gives every file of the listing that has rows the
-- health of its rows, and no entry to one that has none.
pub bulk_chunk_health-rows :
    (ids : List Text) (s : Store)
    → s.faults ≡ []
    → AllDistinct ids
    → (after : List (Text × ChunkHealth)) × ((bulk_chunk_health ids s ≡ (ok after, s))
        × ((id : Text) → has id ids ≡ true → lookup id after ≡ rows_health (of_file id s.chunks)))
unfolding bulk_chunk_health health_map lookup
bulk_chunk_health-rows ids s online d =
    let (tallies, (ran, tallied)) =
      bulk_tallies-Tallied (length ids) max_ids ids [] s (omega arith) (omega arith) online d in
    (
      healths tallies,
      (
        rw ran refl,
        λ id known.
            lookup-healths id tallies ∙ rw (tallied id, known) (rows_of (of_file id s.chunks)),
      ),
    )
