-- ===== src/Stream/Next.antt =====
-- internal/downloader/downloader.go: a stream that has not ended is not stuck.
use discord_free_cloud.Base.{
  ℕ, zero, suc, ◌+◌, ◌<◌, ◌≡◌, inl, inr, refl, ap, ◌∙◌, List, [], ◌∷◌, true, false, ◌||◌, some,
  none, ok, length, arith, Text, Bool-cases, Option-cases,
}
use discord_free_cloud.Cache.Valid.{present}
use discord_free_cloud.Aead.{Aead}
use discord_free_cloud.Db.{ChunkRecord}
use discord_free_cloud.Fetch.{DiscordApi, fetch_chunk}
use discord_free_cloud.Stream.{Mode, Stream, put, Step, take, leave, deliver, write, complete}
use discord_free_cloud.Stream.Order.{HasSlots, IsOrdered, fetched}
use discord_free_cloud.Stream.Healthy.{holds, under_way, IsHealthy}

module _ {W : Type 0} (api : DiscordApi W) (aead : Aead) (mode : Mode) (file_id : Text)
    (key : List ℕ) (pieces : ℕ → List ℕ) where
  -- a step that can be made
  abbrev pub CanStep : Stream W → Type 0
  CanStep s = (t : Stream W) × Step api aead mode file_id key s t

  idle-CanStep :
      (s : Stream W) (n : ℕ) (q : List ChunkRecord) → s.queue ≡ q → s.idle ≡ suc n → CanStep s
  idle-CanStep s n [] e f = (record s { idle = n }, leave n e f)
  idle-CanStep s n (c ∷ cs) e f =
      (record s { queue = cs; idle = n; busy = c ∷ s.busy }, take c cs n e f)

  busy-CanStep :
      (whole : List ℕ) (s : Stream W) (c : ChunkRecord) (cs : List ChunkRecord)
      → IsOrdered api aead mode file_id key pieces whole s
      → s.busy ≡ c ∷ cs
      → CanStep s
  busy-CanStep whole s c cs v e =
      let (got, sound) = fetched api aead mode file_id key pieces whole s [] cs c v e in
      (
        record s {
          busy = cs;
          idle = suc s.idle;
          results = put c.chunk_index (pieces c.chunk_index) s.results;
          engine = (fetch_chunk api aead file_id c key s.engine).1;
        },
        deliver [] cs c (pieces c.chunk_index) e got,
      )

  -- a worker can do something
  workers-CanStep :
      (whole : List ℕ) (s : Stream W) (n : ℕ) (busy : List ChunkRecord)
      → IsOrdered api aead mode file_id key pieces whole s
      → s.idle ≡ n
      → s.busy ≡ busy
      → 0 < n + length busy
      → CanStep s
  workers-CanStep whole s (suc n) busy v e f h = idle-CanStep s n s.queue refl e
  workers-CanStep whole s zero [] v e f h = absurd (omega arith)
  workers-CanStep whole s zero (c ∷ cs) v e f h = busy-CanStep whole s c cs v f

  length-holds : (i : ℕ) (cs : List ChunkRecord) → holds i cs ≡ true → 0 < length cs
  length-holds i [] h = cc
  length-holds i (c ∷ cs) h = omega arith

  rest-CanStep :
      (whole : List ℕ) (s : Stream W) (c : ChunkRecord) (cs : List ChunkRecord)
      → IsOrdered api aead mode file_id key pieces whole s
      → IsHealthy s
      → s.ended ≡ none
      → s.rest ≡ c ∷ cs
      → mode.slot s.next c ≡ c.chunk_index
      → under_way c.chunk_index s ≡ true
      → CanStep s
  rest-CanStep whole s c cs v (fine, alone, way, distinct, staffed, lasting) e f slot h =
      elim (Option-cases (s.results c.chunk_index)) [
        | inr (bytes, found) ↦ (_, write c cs bytes e f alone fine (ap s.results slot ∙ found))
        | inl missing ↦ elim (Bool-cases (holds c.chunk_index s.queue)) [
          | inl queued ↦
              workers-CanStep whole s s.idle s.busy v refl refl
                (staffed (length-holds c.chunk_index s.queue queued))
          | inr other ↦
              let fetching : holds c.chunk_index s.busy ≡ true =
                (let h' : (holds c.chunk_index s.busy || present (s.results c.chunk_index)) ≡ true =
                    rw other at h in
                  let h'' : (holds c.chunk_index s.busy || false) ≡ true = rw missing at h' in
                  ground (arith, h'')) in
              workers-CanStep whole s s.idle s.busy v refl refl
                (omega (arith, length-holds c.chunk_index s.busy fetching))
        ]
      ]

  ended-CanStep :
      (whole : List ℕ) (s : Stream W) (n : ℕ) (busy : List ChunkRecord)
      → IsOrdered api aead mode file_id key pieces whole s
      → s.ended ≡ none
      → s.rest ≡ []
      → s.idle ≡ n
      → s.busy ≡ busy
      → CanStep s
  ended-CanStep whole s zero [] v e f g h = (record s { ended = some (ok tt) }, complete e f g h)
  ended-CanStep whole s (suc n) busy v e f g h =
      workers-CanStep whole s (suc n) busy v g h (omega arith)
  ended-CanStep whole s zero (c ∷ cs) v e f g h = busy-CanStep whole s c cs v h

  -- No stream that has not ended is stuck.
  pub IsHealthy-CanStep :
      (whole : List ℕ) (s : Stream W) (rest : List ChunkRecord)
      → IsOrdered api aead mode file_id key pieces whole s
      → IsHealthy s
      → s.ended ≡ none
      → s.rest ≡ rest
      → CanStep s
  IsHealthy-CanStep whole s [] v h e f = ended-CanStep whole s s.idle s.busy v e f refl refl
  IsHealthy-CanStep whole s (c ∷ cs) (queued, fetching, sound, right, slots, written)
        (fine, alone, way, distinct, staffed, lasting) e f =
      let v : IsOrdered api aead mode file_id key pieces whole s =
        (queued, fetching, sound, right, slots, written) in
      let h : IsHealthy s = (fine, alone, way, distinct, staffed, lasting) in
      let (slot, _) = (let w : HasSlots mode s.next (c ∷ cs) = rw f at slots in w) in
      let first : holds c.chunk_index s.rest ≡ true = rw f (ground arith) in
      rest-CanStep whole s c cs v h e f slot (way c.chunk_index first)
