-- ===== src/Stream/Healthy.antt =====
-- internal/downloader/downloader.go: what every step of a stream keeps while nothing goes wrong.
use discord_free_cloud.Base.{
  ℕ, ◌+◌, ◌*◌, ◌<◌, ◌≡◌, ◌⊎◌, inl, inr, refl, sym, ap, ◌∙◌, List, [], ◌∷◌, ◌++◌, Bool, true, false,
  ◌||◌, Option, some, none, Result, ok, err, ◌==◌, length, length-append, arith, Text, Bool-cases,
}
use discord_free_cloud.Cache.Valid.{present}
use discord_free_cloud.Aead.{Aead}
use discord_free_cloud.Db.{ChunkRecord}
use discord_free_cloud.Fetch.{DiscordApi}
use discord_free_cloud.Stream.{
  Mode, Stream, StreamError, Step, take, leave, quit, deliver, fail, notice, stop_cancelled,
  stop_failed, write, complete,
}
use discord_free_cloud.Stream.Order.{HasSlots, IsOrdered, fetched}

-- whether a part with an index is in a list
abbrev pub holds : ℕ → List ChunkRecord → Bool
holds i [] = false
holds i (c ∷ cs) = (c.chunk_index == i) || holds i cs

abbrev pub IsDistinct : List ChunkRecord → Type 0
IsDistinct [] = Unit {0}
IsDistinct (c ∷ cs) = (holds c.chunk_index cs ≡ false) × IsDistinct cs

holds-append : (i : ℕ) (xs ys : List ChunkRecord) → holds i (xs ++ ys) ≡ (holds i xs || holds i ys)
holds-append i [] ys = refl
holds-append i (x ∷ xs) ys = ground (arith, holds-append i xs ys)

abbrev pub open_ended : Option (Result StreamError (Unit {0})) → ℕ
open_ended none = 1
open_ended (some r) = 0

module _ {W : Type 0} where
  -- what every step makes smaller
  abbrev pub work_left : Stream W → ℕ
  work_left s = 3 * length s.queue + 2 * length s.busy + s.idle + length s.rest + open_ended s.ended

  -- a part is in the channel, with a worker, or in the map
  abbrev pub under_way : ℕ → Stream W → Bool
  under_way i s = holds i s.queue || (holds i s.busy || present (s.results i))

  -- No error has come up, every part that is still to be written is under way, and there is a worker
  -- for what is in the channel.
  abbrev pub IsHealthy : Stream W → Type 0
  IsHealthy s =
      (s.failure ≡ none)
      × (s.stopped ≡ false)
      × ((i : ℕ) → holds i s.rest ≡ true → under_way i s ≡ true)
      × IsDistinct s.rest
      × (0 < length s.queue → 0 < s.idle + length s.busy)
      × ((s.ended ≡ none) ⊎ (s.ended ≡ some (ok tt)))

module _ {W : Type 0} (api : DiscordApi W) (aead : Aead) (mode : Mode) (file_id : Text)
    (key : List ℕ) (pieces : ℕ → List ℕ) where
  pub Step-IsHealthy :
      (whole : List ℕ) {s t : Stream W}
      → Step api aead mode file_id key s t
      → IsOrdered api aead mode file_id key pieces whole s
      → IsHealthy s
      → IsHealthy t × (work_left t < work_left s)
  Step-IsHealthy whole {s} (take c cs n e f) v (fine, alone, way, distinct, staffed, lasting) = (
    (
      fine,
      alone,
      λ i h.
          (let w : under_way i s ≡ true = way i h in
            let w' : (holds i (c ∷ cs) || (holds i s.busy || present (s.results i))) ≡ true =
              rw e at w in
            ground (arith, w')),
      distinct,
      λ h. omega arith,
      lasting,
    ),
    omega (arith, ap length e, f),
  )
  Step-IsHealthy whole {s} (leave n e f) v (fine, alone, way, distinct, staffed, lasting) = (
    (fine, alone, way, distinct, λ h. absurd (omega (arith, ap length e, h)), lasting),
    omega (arith, f),
  )
  Step-IsHealthy whole {s} (quit n e f) v (fine, alone, way, distinct, staffed, lasting) =
      absurd (cc)
  Step-IsHealthy whole {s} (deliver before after c bytes e f) v
        (fine, alone, way, distinct, staffed, lasting) =
      (
        (
          fine,
          alone,
          λ i h.
              (let w : under_way i s ≡ true = way i h in
                let w' : (holds i s.queue
                      || (holds i (before ++ (c ∷ after)) || present (s.results i)))
                    ≡ true =
                  rw e at w in
                ground (arith, w', holds-append i before (c ∷ after), holds-append i before after)),
          distinct,
          λ h. omega arith,
          lasting,
        ),
        omega (arith, ap length e, length-append before (c ∷ after), length-append before after),
      )
  Step-IsHealthy whole {s} (fail before after c fault e f) v h = absurd (
      let no_fault : ok (pieces c.chunk_index) ≡ err fault =
        sym (fetched api aead mode file_id key pieces whole s before after c v e).0 ∙ f in
      cc)
  Step-IsHealthy whole (notice e) v (fine, alone, way, distinct, staffed, lasting) = absurd (cc)
  Step-IsHealthy whole (stop_cancelled c cs e f g) v
        (fine, alone, way, distinct, staffed, lasting) =
      absurd (cc)
  Step-IsHealthy whole (stop_failed c cs fault e f g h) v
        (fine, alone, way, distinct, staffed, lasting) =
      absurd (cc)
  Step-IsHealthy whole {s} (write c cs bytes e f g h i)
        (queued, fetching, sound, right, slots, written)
        (fine, alone, way, distinct, staffed, lasting) =
      let (slot, _) = (let w : HasSlots mode s.next (c ∷ cs) = rw f at slots in w) in
      let (new, distinct') = (let w : IsDistinct (c ∷ cs) = rw f at distinct in w) in
      (
        (
          fine,
          alone,
          λ j there.
              (let apart : (c.chunk_index == j) ≡ false = elim (Bool-cases (c.chunk_index == j)) [
                | inl same ↦
                    let e' : c.chunk_index ≡ j = ground arith in
                    let h' : holds j cs ≡ false = rw (sym e') new in absurd (cc)
                | inr other ↦ other
              ] in
                let w : holds j s.rest ≡ true → under_way j s ≡ true = way j in
                let w' : holds j (c ∷ cs) ≡ true → under_way j s ≡ true = rw f at w in
                rw slot (ground (arith, w', there, apart))),
          distinct',
          staffed,
          lasting,
        ),
        omega (arith, ap length f),
      )
  Step-IsHealthy whole (complete e f g h) v (fine, alone, way, distinct, staffed, lasting) =
      ((fine, alone, way, distinct, staffed, inr refl), rw e (omega arith))
