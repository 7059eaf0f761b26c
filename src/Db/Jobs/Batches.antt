-- ===== src/Db/Jobs/Batches.antt =====
-- internal/db/db.go: `CreateChunks` in batches is one insertion.
use discord_free_cloud.Base.{
  ℕ, zero, suc, ◌*◌, ◌≤◌, ◌<◌, ◌≡◌, ◌≢◌, refl, sym, ap, ◌∙◌, List, [], ◌∷◌, ◌++◌, false, ◌||◌, not,
  Result, ok, err, length, take, drop, length-take, length-drop, take-append-drop, nil_of_length,
  ltb, ◌==◌, Text, bytes_eq, arith, Bool-cases, inl, inr,
}
use discord_free_cloud.Fetch.Single.{Result-cases}
use discord_free_cloud.Db.{
  ChunkStatus, ChunkRecord, Store, DbError, committed, constraint_violated, bad_statement,
}
use discord_free_cloud.Db.Faults.{exec-online, exec-refused}
use discord_free_cloud.Db.Chunks.{
  update_chunk_with_guild, parameters, update_query, update_arguments,
}
use discord_free_cloud.Db.Jobs.{
  new_row, add_rows, create_chunks_batch, create_batches, after_batch, create_chunks, max_rows,
  has_chunk, has_job, update_chunk_status,
}

-- what the second part of an insertion adds to the first
then_rows : Result DbError Store → List ChunkRecord → Result DbError Store
then_rows (ok s) ys = add_rows ys s
then_rows (err e) ys = err e

add_rows-append :
    (xs ys : List ChunkRecord) (s : Store) → add_rows (xs ++ ys) s ≡ then_rows (add_rows xs s) ys
unfolding add_rows then_rows
add_rows-append [] ys s = refl
add_rows-append (x ∷ xs) ys s =
    elim (Bool-cases (has_chunk x.id s.chunks || not (has_job x.job_id s.jobs))) [
      | inl refused ↦ rw refused
      | inr fine ↦
          rw fine (add_rows-append xs ys (record s { chunks = s.chunks ++ (new_row x ∷ []) }))
    ]

add_rows-faults :
    (xs : List ChunkRecord) (s s1 : Store) → add_rows xs s ≡ ok s1 → s1.faults ≡ s.faults
unfolding add_rows
add_rows-faults [] s s1 h = let e : s ≡ s1 = (cc) in ap (λ (t : Store). t.faults) (sym e)
add_rows-faults (x ∷ xs) s s1 h =
    elim (Bool-cases (has_chunk x.id s.chunks || not (has_job x.job_id s.jobs))) [
      | inl refused ↦ absurd (let h' : err constraint_violated ≡ ok s1 = rw refused at h in cc)
      | inr fine ↦
          add_rows-faults xs (record s { chunks = s.chunks ++ (new_row x ∷ []) }) s1 (rw fine at h)
    ]

create_chunks_batch-ok :
    (cs : List ChunkRecord) (s s1 : Store)
    → s.faults ≡ []
    → 0 < length cs
    → length cs ≤ max_rows
    → add_rows cs s ≡ ok s1
    → create_chunks_batch cs s ≡ (ok tt, s1)
unfolding create_chunks_batch committed
create_chunks_batch-ok cs s s1 online some_row few h =
    let some_rows : (length cs == 0) ≡ false = ground arith in
    let fits : ltb 65535 (length cs * 15) ≡ false = ground arith in
    exec-online _ s online ∙ rw (some_rows, fits, h)

create_batches-add_rows :
    (n : ℕ) (cs : List ChunkRecord) (s s1 : Store)
    → length cs ≤ n
    → s.faults ≡ []
    → add_rows cs s ≡ ok s1
    → create_batches n cs s ≡ (ok tt, s1)
unfolding create_batches after_batch
create_batches-add_rows zero cs s s1 few online h =
    let none_left : cs ≡ [] = nil_of_length cs (omega arith) in
    let h' : ok s ≡ ok s1 = (unfold add_rows in rw none_left at h) in
    let e : s ≡ s1 = cc in ap (λ (t : Store). (ok tt, t)) e
create_batches-add_rows (suc n) cs s s1 few online h = elim (Bool-cases (length cs == 0)) [
  | inl no_rows ↦
      let none_left : cs ≡ [] = nil_of_length cs (ground arith) in
      let h' : ok s ≡ ok s1 = (unfold add_rows in rw none_left at h) in
      let e : s ≡ s1 = cc in rw (create_batches, no_rows) (ap (λ (t : Store). (ok tt, t)) e)
  | inr some_rows ↦
      let xs : List ChunkRecord = take max_rows cs in
      let ys : List ChunkRecord = drop max_rows cs in
      let whole : then_rows (add_rows xs s) ys ≡ ok s1 =
        sym (add_rows-append xs ys s)
        ∙ ap (λ (l : List ChunkRecord). add_rows l s) (take-append-drop max_rows cs)
        ∙ h in
      elim (Result-cases (add_rows xs s)) [
        | inr (e, refused) ↦
            absurd (let no : err e ≡ ok s1 = (unfold then_rows in rw refused at whole) in cc)
        | inl (s', added) ↦
            let batch : create_chunks_batch xs s ≡ (ok tt, s') =
              create_chunks_batch-ok xs s s' online (ground (arith, length-take max_rows cs))
                (omega (arith, length-take max_rows cs)) added in
            let rest : add_rows ys s' ≡ ok s1 = (unfold then_rows in rw added at whole) in
            rw (create_batches, some_rows)
              (ap (λ (b : Result DbError (Unit {0}) × Store). after_batch b (create_batches n ys))
                  batch
                ∙ create_batches-add_rows n ys s' s1 (ground (arith, length-drop max_rows cs))
                    (add_rows-faults xs s s' added ∙ online) rest)
      ]
]

-- Creating the rows of an upload in batches is one insertion of them all: if the rows could be added
-- by one statement of any length, and the connection has no fault, then `CreateChunks` succeeds with
-- the same table, and no batch exceeds the parameters of a statement.
pub create_chunks-add_rows :
    (cs : List ChunkRecord) (s s1 : Store)
    → s.faults ≡ []
    → add_rows cs s ≡ ok s1
    → create_chunks cs s ≡ (ok tt, s1)
unfolding create_chunks
create_chunks-add_rows cs s s1 online h =
    create_batches-add_rows (length cs) cs s s1 (omega arith) online h

-- `UpdateChunkStatus` fails on every chunk in every state, and changes no row, where the driver refuses
-- a statement whose arguments are not as many as the parameters that its text numbers.
pub update_chunk_status_fails :
    (chunk_id : Text) (status : ChunkStatus) (channel message attachment url : Text) (s : Store)
    → ((update_chunk_status chunk_id status channel message attachment url s).0 ≢ ok tt)
      × ((update_chunk_status chunk_id status channel message attachment url s).1.chunks ≡ s.chunks)
unfolding update_chunk_status update_chunk_with_guild parameters update_query update_arguments
    bytes_eq
update_chunk_status_fails chunk_id status channel message attachment url s =
    exec-refused _ bad_statement s (λ t. refl)
