-- ===== src/Stream/Progress.antt =====
-- internal/downloader/downloader.go: a stream that is left alone comes to its end.
use discord_free_cloud.Base.{
  ℕ, zero, suc, ◌+◌, ◌*◌, ◌≤◌, ◌≡◌, inl, inr, refl, sym, ◌∙◌, List, [], ◌++◌, append-nil, some,
  none, ok, length, arith, Text,
}
use discord_free_cloud.Aead.{Aead}
use discord_free_cloud.Db.{ChunkRecord}
use discord_free_cloud.Fetch.{DiscordApi, Engine}
use discord_free_cloud.Fetch.Sound.{IsSound}
use discord_free_cloud.Download.Whole.{IsServed}
use discord_free_cloud.Stream.{
  Mode, Stream, Step, take, leave, quit, deliver, fail, notice, stop_cancelled, stop_failed, write,
  complete, started, worker_limit,
}
use discord_free_cloud.Stream.Order.{
  render_all, HasSlots, IsOrdered, Step-IsOrdered, started-IsOrdered,
}
use discord_free_cloud.Stream.Healthy.{IsDistinct, open_ended, work_left, IsHealthy, Step-IsHealthy}
use discord_free_cloud.Stream.Next.{IsHealthy-CanStep}

module _ {W : Type 0} (api : DiscordApi W) (aead : Aead) (mode : Mode) (file_id : Text)
    (key : List ℕ) where
  -- `n` steps without trouble from outside
  pub data Run (s : Stream W) : ℕ → Stream W → Type 0 where
    stay : Run s 0 s
    onward :
        {n : ℕ} {t u : Stream W} → Run s n t → Step api aead mode file_id key t u → Run s (suc n) u

module _ {W : Type 0} (api : DiscordApi W) (aead : Aead) (mode : Mode) (file_id : Text)
    (key : List ℕ) (pieces : ℕ → List ℕ) where
  -- what a run keeps, and how long it can be
  Run-keeps :
      (whole : List ℕ) {s t : Stream W} {n : ℕ}
      → Run api aead mode file_id key s n t
      → IsOrdered api aead mode file_id key pieces whole s
      → IsHealthy s
      → IsOrdered api aead mode file_id key pieces whole t
        × IsHealthy t
        × (n + work_left t ≤ work_left s)
  Run-keeps whole stay v h = (v, h, omega arith)
  Run-keeps whole (onward r step) v h =
      let (v', h', bound) = Run-keeps whole r v h in
      let (h'', less) = Step-IsHealthy api aead mode file_id key pieces whole step v' h' in
      (
        Step-IsOrdered api aead mode file_id key pieces whole step v',
        h'',
        omega (arith, bound, less),
      )

  -- A finished stream has nothing left to write.
  Step-rest :
      {s t : Stream W}
      → Step api aead mode file_id key s t
      → (s.ended ≡ some (ok tt) → s.rest ≡ [])
      → t.ended ≡ some (ok tt)
      → t.rest ≡ []
  Step-rest (take c cs n e f) h over = h over
  Step-rest (leave n e f) h over = h over
  Step-rest (quit n e f) h over = h over
  Step-rest (deliver before after c bytes e f) h over = h over
  Step-rest (fail before after c fault e f) h over = h over
  Step-rest (notice e) h over = h over
  Step-rest (stop_cancelled c cs e f g) h over = absurd (cc)
  Step-rest (stop_failed c cs fault e f g i) h over = absurd (cc)
  Step-rest {s} (write c cs bytes e f g i j) h over =
      absurd (let no_end : none ≡ some (ok tt) = sym e ∙ over in cc)
  Step-rest (complete e f g i) h over = f

  before :
      {s t u : Stream W} {n : ℕ}
      → Step api aead mode file_id key s t
      → Run api aead mode file_id key t n u
      → Run api aead mode file_id key s (suc n) u
  before step stay = onward stay step
  before step (onward r last) = onward (before step r) last

  -- the rest of a run, by the work that is left
  goes_on :
      (whole : List ℕ) (n : ℕ) (s : Stream W)
      → work_left s ≤ n
      → IsOrdered api aead mode file_id key pieces whole s
      → IsHealthy s
      → (s.ended ≡ some (ok tt) → s.rest ≡ [])
      → (k : ℕ) × (u : Stream W) × Run api aead mode file_id key s k u
        × (u.ended ≡ some (ok tt))
        × (u.rest ≡ [])
  goes_on whole n s small v (fine, alone, way, distinct, staffed, inr over) rest =
      (0, s, stay, over, rest over)
  goes_on whole zero s small v (fine, alone, way, distinct, staffed, inl lasting) rest =
      absurd (
        let none_left : open_ended s.ended ≡ 1 = rw lasting refl in omega (arith, small, none_left))
  goes_on whole (suc n) s small v (fine, alone, way, distinct, staffed, inl lasting) rest =
      let h : IsHealthy s = (fine, alone, way, distinct, staffed, inl lasting) in
      let (t, step) =
        IsHealthy-CanStep api aead mode file_id key pieces whole s s.rest v h lasting refl in
      let (h', less) = Step-IsHealthy api aead mode file_id key pieces whole step v h in
      let (k, u, r, over, done) =
        goes_on whole n t (omega (arith, small, less))
          (Step-IsOrdered api aead mode file_id key pieces whole step v) h' (Step-rest step rest) in
      (suc k, u, before step r, over, done)

  started-IsHealthy :
      (workers : ℕ) (parts : List ChunkRecord) (e : Engine W)
      → IsDistinct parts
      → IsHealthy (started workers parts e)
        × (work_left (started workers parts e)
            ≤ 4 * length parts + worker_limit workers (length parts) + 1)
  unfolding started worker_limit
  started-IsHealthy workers parts e distinct =
      ((refl, refl, λ i h. ground (arith, h), distinct, λ h. ground arith, inl refl), omega arith)

  started-rest :
      (workers : ℕ) (parts : List ChunkRecord) (e : Engine W)
      → (started workers parts e).ended ≡ some (ok tt)
      → (started workers parts e).rest ≡ []
  unfolding started
  started-rest workers parts e h = absurd (cc)

  Run-rest :
      {s t : Stream W} {n : ℕ}
      → Run api aead mode file_id key s n t
      → (s.ended ≡ some (ok tt) → s.rest ≡ [])
      → t.ended ≡ some (ok tt)
      → t.rest ≡ []
  Run-rest stay h = h
  Run-rest (onward r step) h = Step-rest step (Run-rest r h)

  -- A stream whose context is not cancelled and whose browser takes everything does at most four steps
  -- for each part, one for each worker and one more, in whatever order its goroutines run; at every
  -- point it can go on to its end; and at its end it has returned no error and has written the
  -- rendering of all its parts in their order. The parts have different indices, each can be fetched
  -- and lies in the map where it is looked for, and what is cached of the file is right.
  pub Run-completes :
      (workers : ℕ) (parts : List ChunkRecord) (e : Engine W) (n : ℕ) (t : Stream W)
      → IsServed api aead file_id key pieces parts
      → IsSound file_id pieces e.cache
      → HasSlots mode 0 parts
      → IsDistinct parts
      → Run api aead mode file_id key (started workers parts e) n t
      → (n ≤ 4 * length parts + worker_limit workers (length parts) + 1)
        × ((k : ℕ) × (u : Stream W) × Run api aead mode file_id key t k u
            × (u.ended ≡ some (ok tt))
            × (u.out ≡ render_all mode pieces parts))
  Run-completes workers parts e n t served sound slots distinct r =
      let whole : List ℕ = render_all mode pieces parts in
      let start : Stream W = started workers parts e in
      let (h, work) = started-IsHealthy workers parts e distinct in
      let v : IsOrdered api aead mode file_id key pieces whole start =
        started-IsOrdered api aead mode file_id key pieces workers parts e served sound slots in
      let (v', h', bound) = Run-keeps whole r v h in
      let (k, u, r', over, done) =
        goes_on whole (work_left t) t (omega arith) v' h'
          (Run-rest r (started-rest workers parts e)) in
      let (a, b, c, d, f, g) = (Run-keeps whole r' v' h').0 in
      (
        omega (arith, bound, work),
        (
          k,
          u,
          r',
          over,
          sym (append-nil u.out)
              ∙ (let w : u.out ++ render_all mode pieces [] ≡ whole = rw done at g in w),
        ),
      )
