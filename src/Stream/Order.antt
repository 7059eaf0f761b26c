-- ===== src/Stream/Order.antt =====
-- internal/downloader/downloader.go: what a stream has written, whatever the order in which its
-- goroutines run.
use discord_free_cloud.Base.{
  ℕ, suc, ◌≡◌, refl, sym, ap, ◌∙◌, List, [], ◌∷◌, ◌++◌, append_assoc, Option, some, ok, err, arith,
  Text, ◌⊎◌, inl, inr,
}
use discord_free_cloud.Aead.{Aead}
use discord_free_cloud.Db.{ChunkRecord}
use discord_free_cloud.Fetch.{DiscordApi, Engine, fetch_chunk}
use discord_free_cloud.Fetch.Sound.{IsSound, fetch_chunk-IsSound}
use discord_free_cloud.Download.Whole.{IsServed}
use discord_free_cloud.Stream.{
  Mode, Stream, put, delete, Trouble, cancel, refuse_write, Step, take, leave, quit, deliver, fail,
  notice, stop_cancelled, stop_failed, write, complete, Reach, begin, later, upset, started,
  not_written,
}

-- what is to be written of a list of parts
abbrev pub render_all : Mode → (ℕ → List ℕ) → List ChunkRecord → List ℕ
render_all mode pieces [] = []
render_all mode pieces (c ∷ cs) = mode.render c (pieces c.chunk_index) ++ render_all mode pieces cs

-- from position `i` on, a part lies in the map under the key under which it is looked for
abbrev pub HasSlots : Mode → ℕ → List ChunkRecord → Type 0
HasSlots mode i [] = Unit {0}
HasSlots mode i (c ∷ cs) = (mode.slot i c ≡ c.chunk_index) × HasSlots mode (suc i) cs

abbrev pub IsRight : (ℕ → List ℕ) → (ℕ → Option (List ℕ)) → Type 0
IsRight pieces results = (i : ℕ) (bytes : List ℕ) → results i ≡ some bytes → bytes ≡ pieces i

put-IsRight :
    (pieces : ℕ → List ℕ) (results : ℕ → Option (List ℕ)) (k : ℕ)
    → IsRight pieces results
    → IsRight pieces (put k (pieces k) results)
put-IsRight pieces results k right i bytes h = ground (arith, h, right i bytes)

delete-IsRight :
    (pieces : ℕ → List ℕ) (results : ℕ → Option (List ℕ)) (k : ℕ)
    → IsRight pieces results
    → IsRight pieces (delete k results)
delete-IsRight pieces results k right i bytes h = ground (arith, h, right i bytes)

module _ {W : Type 0} (api : DiscordApi W) (aead : Aead) (mode : Mode) (file_id : Text)
    (key : List ℕ) (pieces : ℕ → List ℕ) where
  -- Every part that is under way can be fetched, what is cached and what lies in the map is right, and
  -- what is written with what is still to be written makes the whole.
  abbrev pub IsOrdered : List ℕ → Stream W → Type 0
  IsOrdered whole s =
      IsServed api aead file_id key pieces s.queue
      × IsServed api aead file_id key pieces s.busy
      × IsSound file_id pieces s.engine.cache
      × IsRight pieces s.results
      × HasSlots mode s.next s.rest
      × (s.out ++ render_all mode pieces s.rest ≡ whole)

  IsServed-without :
      (before after : List ChunkRecord) (c : ChunkRecord)
      → IsServed api aead file_id key pieces (before ++ (c ∷ after))
      → IsServed api aead file_id key pieces (c ∷ (before ++ after))
  IsServed-without [] after c v = v
  IsServed-without (b ∷ before) after c (v, vs) =
      let (w, ws) = IsServed-without before after c vs in (w, (v, ws))

  -- a part of the busy workers is fetched
  pub fetched :
      (whole : List ℕ) (s : Stream W) (before after : List ChunkRecord) (c : ChunkRecord)
      → IsOrdered whole s
      → s.busy ≡ before ++ (c ∷ after)
      → ((fetch_chunk api aead file_id c key s.engine).0 ≡ ok (pieces c.chunk_index))
        × IsSound file_id pieces (fetch_chunk api aead file_id c key s.engine).1.cache
  fetched whole s before after c (queued, fetching, sound, right, slots, written) e =
      fetch_chunk-IsSound api aead file_id c key pieces s.engine sound
        (IsServed-without before after c (rw e at fetching)).0

  pub Step-IsOrdered :
      (whole : List ℕ) {s t : Stream W}
      → Step api aead mode file_id key s t
      → IsOrdered whole s
      → IsOrdered whole t
  Step-IsOrdered whole {s} (take c cs n e f) (queued, fetching, sound, right, slots, written) =
      let (now, after) =
        (let w : IsServed api aead file_id key pieces (c ∷ cs) = rw e at queued in w) in
      (after, (now, fetching), sound, right, slots, written)
  Step-IsOrdered whole (leave n e f) v = v
  Step-IsOrdered whole (quit n e f) v = v
  Step-IsOrdered whole {s} (deliver before after c bytes e f)
        (queued, fetching, sound, right, slots, written) =
      let v : IsOrdered whole s = (queued, fetching, sound, right, slots, written) in
      let (got, sound') = fetched whole s before after c v e in
      let same : pieces c.chunk_index ≡ bytes =
        (let h : ok (pieces c.chunk_index) ≡ ok bytes = sym got ∙ f in cc) in
      (
        queued,
        (IsServed-without before after c (rw e at fetching)).1,
        sound',
        rw (sym same) (put-IsRight pieces s.results c.chunk_index right),
        slots,
        written,
      )
  Step-IsOrdered whole {s} (fail before after c fault e f) v = absurd (
      let h : ok (pieces c.chunk_index) ≡ err fault =
        sym (fetched whole s before after c v e).0 ∙ f in
      cc)
  Step-IsOrdered whole (notice e) v = v
  Step-IsOrdered whole (stop_cancelled c cs e f g) v = v
  Step-IsOrdered whole (stop_failed c cs fault e f g h) v = v
  Step-IsOrdered whole {s} (write c cs bytes e f g h i)
        (queued, fetching, sound, right, slots, written) =
      let (slot, slots') = (let w : HasSlots mode s.next (c ∷ cs) = rw f at slots in w) in
      let same : bytes ≡ pieces c.chunk_index =
        right (mode.slot s.next c) bytes i ∙ ap pieces slot in
      (
        queued,
        fetching,
        sound,
        delete-IsRight pieces s.results (mode.slot s.next c) right,
        slots',
        rw same (
            append_assoc s.out (mode.render c (pieces c.chunk_index)) (render_all mode pieces cs)
            ∙ (let w : s.out ++ render_all mode pieces (c ∷ cs) ≡ whole = rw f at written in w)),
      )
  Step-IsOrdered whole (complete e f g h) v = v

  -- The stream has ended with the error of a write, and what is written is the start of the whole.
  abbrev pub IsBroken : List ℕ → Stream W → Type 0
  IsBroken whole s =
      (s.ended ≡ some (err not_written)) × ((tail : List ℕ) × (s.out ++ tail ≡ whole))

  -- what holds of a stream at every point, until a write fails and behind it
  abbrev IsWritten : List ℕ → Stream W → Type 0
  IsWritten whole s = IsOrdered whole s ⊎ IsBroken whole s

  Step-IsBroken :
      (whole : List ℕ) {s t : Stream W}
      → Step api aead mode file_id key s t
      → IsBroken whole s
      → IsBroken whole t
  Step-IsBroken whole (take c cs n e f) v = v
  Step-IsBroken whole (leave n e f) v = v
  Step-IsBroken whole (quit n e f) v = v
  Step-IsBroken whole (deliver before after c bytes e f) v = v
  Step-IsBroken whole (fail before after c fault e f) v = v
  Step-IsBroken whole (notice e) v = v
  Step-IsBroken whole (stop_cancelled c cs e f g) (ended, v) = absurd (cc)
  Step-IsBroken whole (stop_failed c cs fault e f g h) (ended, v) = absurd (cc)
  Step-IsBroken whole (write c cs bytes e f g h i) (ended, v) = absurd (cc)
  Step-IsBroken whole (complete e f g h) (ended, v) = absurd (cc)

  Trouble-IsBroken :
      (whole : List ℕ) {s t : Stream W} → Trouble mode s t → IsBroken whole s → IsBroken whole t
  Trouble-IsBroken whole cancel v = v
  Trouble-IsBroken whole (refuse_write c cs bytes sent unsent e f g h i j) (ended, v) = absurd (cc)

  -- a write that fails has sent the start of what it renders
  Trouble-IsWritten :
      (whole : List ℕ) {s t : Stream W} → Trouble mode s t → IsOrdered whole s → IsWritten whole t
  Trouble-IsWritten whole cancel v = inl v
  Trouble-IsWritten whole {s} (refuse_write c cs bytes sent unsent e f g h i j)
        (queued, fetching, sound, right, slots, written) =
      let (slot, slots') = (let w : HasSlots mode s.next (c ∷ cs) = rw f at slots in w) in
      let same : bytes ≡ pieces c.chunk_index =
        right (mode.slot s.next c) bytes i ∙ ap pieces slot in
      let split : mode.render c (pieces c.chunk_index) ≡ sent ++ unsent =
        ap (mode.render c) (sym same) ∙ j in
      let behind : s.out ++ ((sent ++ unsent) ++ render_all mode pieces cs) ≡ whole =
        rw (← split)
          (let w : s.out ++ render_all mode pieces (c ∷ cs) ≡ whole = rw f at written in w) in
      inr (
        refl,
        (
          unsent ++ render_all mode pieces cs,
          append_assoc s.out sent (unsent ++ render_all mode pieces cs)
              ∙ (ap (λ l. s.out ++ l) (sym (append_assoc sent unsent (render_all mode pieces cs)))
                  ∙ behind),
        ),
      )

  Reach-IsWritten :
      (whole : List ℕ) {s t : Stream W}
      → Reach api aead mode file_id key s t
      → IsOrdered whole s
      → IsWritten whole t
  Reach-IsWritten whole begin v = inl v
  Reach-IsWritten whole (later r step) v = elim (Reach-IsWritten whole r v) [
    | inl going ↦ inl (Step-IsOrdered whole step going)
    | inr broken ↦ inr (Step-IsBroken whole step broken)
  ]
  Reach-IsWritten whole (upset r trouble) v = elim (Reach-IsWritten whole r v) [
    | inl going ↦ Trouble-IsWritten whole trouble going
    | inr broken ↦ inr (Trouble-IsBroken whole trouble broken)
  ]

  pub started-IsOrdered :
      (workers : ℕ) (parts : List ChunkRecord) (e : Engine W)
      → IsServed api aead file_id key pieces parts
      → IsSound file_id pieces e.cache
      → HasSlots mode 0 parts
      → IsOrdered (render_all mode pieces parts) (started workers parts e)
  unfolding started
  started-IsOrdered workers parts e served sound slots =
      (served, tt, sound, λ i b h. cc, slots, refl)

  -- Whatever its goroutines do in whatever order, and whether or not the context is cancelled or a write
  -- fails with some of its bytes sent: what a stream has written followed by the rendering of the parts
  -- that it still has to write is the rendering of all its parts in their order, or it has ended with
  -- the error of a write, and what is written is the start of that rendering. This holds when each part
  -- can be fetched, what is cached of the file is right and every part lies in the map where it is
  -- looked for.
  pub Reach-out :
      (workers : ℕ) (parts : List ChunkRecord) (e : Engine W) (t : Stream W)
      → IsServed api aead file_id key pieces parts
      → IsSound file_id pieces e.cache
      → HasSlots mode 0 parts
      → Reach api aead mode file_id key (started workers parts e) t
      → (t.out ++ render_all mode pieces t.rest ≡ render_all mode pieces parts)
        ⊎ IsBroken (render_all mode pieces parts) t
  Reach-out workers parts e t served sound slots r =
      elim (Reach-IsWritten (render_all mode pieces parts) r
        (started-IsOrdered workers parts e served sound slots)) [
          | inl (queued, fetching, cached, right, places_of, written) ↦ inl written
          | inr broken ↦ inr broken
        ]
