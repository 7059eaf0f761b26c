-- ===== src/Discord/Holding.antt =====
-- internal/discord/client.go: the trackers that the calls of a client share. A call that meets a rate
-- limit makes the others wait, whatever the clock shows when they start.
use discord_free_cloud.Base.{
  zero, suc, Option, none, Result, ℕ, ◌+◌, ◌-◌, ◌*◌, ◌≤◌, List, [], ◌∷◌, Bool, true, false, some,
  arith, ◌≡◌, refl, ap, ◌⊎◌, inl, inr, Text, ◌==◌, bytes_eq, bytes_eq→eq, Bool-cases, ltb,
  lookup-insert,
}
use discord_free_cloud.Discord.{Response, Web, WebError, IsClock, millisecond}
use discord_free_cloud.Discord.Retry.{
  Limits, Route, Attempt, finished, again, retry, settle, shake_off, limited_try, after_send,
  hold_back, wait_both, wait, get_limiter, block, blocked_until, asked, backoff,
}
use discord_free_cloud.Discord.Log.{Exchange, Logged, logged, wait_both-log, after_send-log}

-- Every request of the log goes out at the time or later.
abbrev pub AllSince : ℕ → List Exchange → Type 0
AllSince t [] = Unit {0}
AllSince t (e ∷ log) = (t ≤ e.sent) × AllSince t log

blocked_until-le : (target old : ℕ) → target ≤ blocked_until target old
unfolding blocked_until
blocked_until-le target old = ground arith

blocked_until-ge : (target old : ℕ) → old ≤ blocked_until target old
unfolding blocked_until
blocked_until-ge target old = ground arith

-- the time that the trackers of a key block to
abbrev Blocks : Text → Limits → ℕ → Type 0
Blocks key l t = (t ≤ l.global_lock) ⊎ (t ≤ get_limiter key l)

block-Blocks :
    (global : Bool) (key other : Text) (t : ℕ) (l : Limits)
    → (global ≡ true) ⊎ (bytes_eq key other ≡ true)
    → Blocks other (block global key t l) t
unfolding block get_limiter
block-Blocks true key other t l h = inl (blocked_until-le t l.global_lock)
block-Blocks false key other t l (inl h) = absurd (ground arith)
block-Blocks false key other t l (inr h) = inr (
    rw (lookup-insert key other (blocked_until t (get_limiter key l)) l.limiters, h)
      (blocked_until-le t (get_limiter key l)))

-- a tracker never gives up time that it blocks
block-keeps :
    (global : Bool) (key other : Text) (u t : ℕ) (l : Limits)
    → Blocks other l t
    → Blocks other (block global key u l) t
unfolding block get_limiter
block-keeps true key other u t l (inl h) = inl (omega (arith, blocked_until-ge u l.global_lock))
block-keeps true key other u t l (inr h) = inr h
block-keeps false key other u t l (inl h) = inl h
block-keeps false key other u t l (inr h) = inr (elim (Bool-cases (bytes_eq key other)) [
  | inl e ↦
      let same : get_limiter key l ≡ get_limiter other l =
        ap (λ k. get_limiter k l) (bytes_eq→eq key other e) in
      rw (lookup-insert key other (blocked_until u (get_limiter key l)) l.limiters, e)
        (omega (arith, same, blocked_until-ge u (get_limiter key l)))
  | inr e ↦ rw (lookup-insert key other (blocked_until u (get_limiter key l)) l.limiters, e) h
])

-- the trackers behind what other calls block, each by the lock of all calls or by its key
abbrev pub block_all : List (Bool × (Text × ℕ)) → Limits → Limits
block_all [] l = l
block_all ((global, (key, t)) ∷ rest) l = block_all rest (block global key t l)

block_all-keeps :
    (other : Text) (t : ℕ) (blocked : List (Bool × (Text × ℕ))) (l : Limits)
    → Blocks other l t
    → Blocks other (block_all blocked l) t
block_all-keeps other t [] l h = h
block_all-keeps other t ((global, (key, u)) ∷ rest) l h =
    block_all-keeps other t rest (block global key u l) (block-keeps global key other u t l h)

module _ {W : Type 0} (web : Web W) (clock : IsClock web) where
  wait-le :
      (until : ℕ) (w : W)
      → (until ≤ web.now (wait web until w)) × (web.now w ≤ web.now (wait web until w))
  unfolding wait
  wait-le until w = elim (Bool-cases (ltb (web.now w) until)) [
    | inl e ↦ rw e (
      omega (arith, clock.sleeps (until - web.now w) w),
      omega (arith, clock.sleeps (until - web.now w) w),
    )
    | inr e ↦ rw e (ground arith, omega arith)
  ]

  wait_both-le :
      (key : Text) (l : Limits) (w : W) (t : ℕ)
      → Blocks key l t
      → t ≤ web.now (wait_both web key l w)
  unfolding wait_both
  wait_both-le key l w t h =
      let first = wait-le l.global_lock w in
      let second = wait-le (get_limiter key l) (wait web l.global_lock w) in
      elim h [ inl a ↦ omega (arith, first.0, second.1) | inr a ↦ omega (arith, second.0) ]

  logged-IsClock : IsClock (logged web)
  logged-IsClock = record {
    sleeps = λ d s. clock.sleeps d s.0;
    sends = λ r s. clock.sends r s.0;
    draws = λ n s. clock.draws n s.0;
  }

module _ {ℓ} {W : Type 0} {A : Type ℓ} (web : Web W) (clock : IsClock web) (route : Route A) where
  backoff-asked :
      (n d : ℕ) (r : Response)
      → asked web route.reads_header r ≡ some d
      → backoff web route.reads_header n r ≡ d
  unfolding backoff
  backoff-asked n d r e = rw (e, backoff) refl

  -- behind a rate limit that asks for a duration, the trackers block until it has passed
  after_send-Blocks :
      (n d : ℕ) (l : Limits) (r : Response) (w : W) (other : Text)
      → (r.status == 429) ≡ true
      → asked web route.reads_header r ≡ some d
      → ((web.read_limit r.body).global ≡ true) ⊎ (bytes_eq route.key other ≡ true)
      → Blocks other (after_send web route n l (some r, w)).0.1 (web.now w + d)
  unfolding after_send hold_back
  after_send-Blocks n d l r w other limited asks h =
      let j = web.random route.jitter w in
      let b = backoff web route.reads_header n r in
      let until = web.now j.1 + (b + (50 + j.0) * millisecond) in
      let enough : web.now w + d ≤ until =
        omega (arith, clock.draws route.jitter w, backoff-asked n d r asks) in
      rw limited (elim (block-Blocks (web.read_limit r.body).global route.key other until l h) [
        | inl a ↦ inl (omega arith)
        | inr a ↦ inr (omega arith)
      ])

  settle-limits :
      (n : ℕ) (l : Limits) (given : Option (Result WebError A)) (w : W)
      → (settle web route.pause given n l w).0.1 ≡ l
  unfolding settle
  settle-limits n l none w = refl
  settle-limits n l (some res) w = refl

  -- what an answer does to the trackers gives up no time that they block
  after_send-keeps :
      (n t : ℕ) (l : Limits) (reply : Option Response) (w : W) (other : Text)
      → Blocks other l t
      → Blocks other (after_send web route n l (reply, w)).0.1 t
  unfolding after_send shake_off hold_back
  after_send-keeps n t l none w other h = h
  after_send-keeps n t l (some r) w other h = elim (Bool-cases (r.status == 429)) [
    | inl e ↦ rw e (block-keeps (web.read_limit r.body).global route.key other _ t l h)
    | inr e ↦ rw (e, settle-limits n l (route.answer r) w) h
  ]

  -- the trackers block to the time, and no request of the log goes out before it
  abbrev pub Held : ℕ → Limits → Logged W → Type 0
  Held t l s = Blocks route.key l t × AllSince t s.1

module _ {ℓ} {W : Type 0} {A : Type ℓ} (web : Web W) (clock : IsClock web) (route : Route A) where
  limited_try-Held :
      (n t : ℕ) (l : Limits) (s : Logged W)
      → Held web clock route t l s
      → let out = limited_try (logged web) route n l s in Held web clock route t out.0.1 out.1
  unfolding limited_try
  limited_try-Held n t l s (h, before) = elim (Bool-cases (web.cancelled s.0)) [
    | inl e ↦ rw e (h, before)
    | inr e ↦ elim (Bool-cases (web.valid_url route.request.url)) [
      | inl v ↦
          let s1 = wait_both (logged web) route.key l s in
          let since : t ≤ web.now s1.0 =
            wait_both-le (logged web) (logged-IsClock web clock) route.key l s t h in
          let a = (logged web).send route.request s1 in
          rw (e, v)
            (
              after_send-keeps (logged web) (logged-IsClock web clock) route n t l a.0 a.1 route.key
                  h,
              rw (after_send-log web route n l _ _, wait_both-log web route route.key l s)
                  (since, before),
            )
      | inr v ↦ rw (e, v) (h, rw (wait_both-log web route route.key l s) before)
    ]
  ]

  verdict-Held :
      (t : ℕ) (v : Attempt A) (l : Limits) (s : Logged W)
      (rest : (Result WebError A × Limits) × Logged W)
      → AllSince t s.1
      → AllSince t rest.1.1
      → let out = elim v as (λ _. (Result WebError A × Limits) × Logged W) [
        | finished r ↦ ((r, l), s)
        | again ↦ rest
      ] in
        AllSince t out.1.1
  verdict-Held t (finished r) l s rest now then_since = now
  verdict-Held t again l s rest now then_since = then_since

  retry-Held :
      (exhausted : WebError) (left n t : ℕ) (l : Limits) (s : Logged W)
      → Held web clock route t l s
      → AllSince t (retry (logged web) (limited_try (logged web) route) exhausted left n l s).1.1
  unfolding retry
  retry-Held exhausted zero n t l s held = held.1
  retry-Held exhausted (suc left) n t l s held =
      let out = limited_try (logged web) route n l s in
      let next = limited_try-Held n t l s held in
      verdict-Held t out.0.0 out.0.1 out.1
        (retry (logged web) (limited_try (logged web) route) exhausted left (suc n) out.0.1 out.1)
        next.1 (retry-Held exhausted left (suc n) t out.0.1 out.1 next)

-- If a call is answered with status 429 and a duration, every request of another call of those that
-- wait for their limits (uploads, looks for an address and deletions, not downloads and the making of
-- channels) that starts with the trackers behind it goes out after the duration, over all its attempts,
-- whatever the clock of that call shows when it starts and whatever else was blocked in between, if the
-- limit holds for all calls or the two calls have the same key, the clock does not go back and sleeps
-- are as long as asked.
pub rate_limit_holds {ℓ} :
    {W : Type 0} {A B : Type ℓ} (web : Web W) (clock : IsClock web) (a : Route A) (b : Route B)
    (exhausted : WebError) (n left m d : ℕ) (l : Limits) (r : Response) (w other : W)
    (blocked : List (Bool × (Text × ℕ)))
    → (r.status == 429) ≡ true
    → asked web a.reads_header r ≡ some d
    → ((web.read_limit r.body).global ≡ true) ⊎ (bytes_eq a.key b.key ≡ true)
    → AllSince
        (web.now w + d)
        (retry
          (logged web)
          (limited_try (logged web) b)
          exhausted
          left
          m
          (block_all blocked (after_send web a n l (some r, w)).0.1)
          (other, [])).1.1
rate_limit_holds web clock a b exhausted n left m d l r w other blocked limited asks h =
    retry-Held web clock b exhausted left m (web.now w + d) _ (other, [])
      (
        block_all-keeps b.key (web.now w + d) blocked _
            (after_send-Blocks web clock a n d l r w b.key limited asks h),
        tt,
      )
