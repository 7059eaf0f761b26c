-- ===== src/Discord/Spacing.antt =====
-- internal/discord/client.go: what a rate limit that Discord states does to the times of the requests,
-- for the call that meets it and for the other calls of the client.
use discord_free_cloud.Base.{
  ◌&&◌, not, bytes_eq, ℕ, zero, suc, ◌+◌, ◌≤◌, List, [], ◌∷◌, Bool, true, false, Option, some, none,
  Result, ok, err, ◌-◌, ◌*◌, ltb, arith, ◌≡◌, refl, inl, inr, Text, ◌==◌, Bool-cases, if◌then◌else◌,
  ◌||◌,
}
use discord_free_cloud.Discord.{
  Response, Web, WebError, IsClock, millisecond, max_retries, rate_limited, gave_up, no_channel,
}
use discord_free_cloud.Discord.Retry.{
  Limits, Route, Attempt, finished, again, retry, limited_try, after_send, hold_back, settle,
  shake_off, wait_both, wait, get_limiter, asked, backoff,
}
use discord_free_cloud.Discord.Calls.{
  upload_chunk, attachment_url, delete_message, delete_channel, upload_route, attachment_route,
  delete_route, empty, message_url, channel_url,
}
use discord_free_cloud.Discord.Log.{Exchange, Logged, logged}

pub duration_or_zero : Option ℕ → ℕ
duration_or_zero none = 0
duration_or_zero (some d) = d

module _ {W : Type 0} (web : Web W) (header : Bool) where
  -- What Discord states with a rate limit: the duration in the body, else the one in the header
  -- Retry-After, where the header counts; zero where it states none.
  pub stated : Response → ℕ
  unfolding duration_or_zero
  stated r = elim (web.read_limit r.body).retry_after [
    | some d ↦ d
    | none ↦
        if header && not (bytes_eq r.retry_header [])
        then duration_or_zero (web.float_seconds r.retry_header)
        else 0
  ]

  pub asks_of : Bool → ℕ → Response → ℕ
  unfolding stated
  asks_of false answered r = 0
  asks_of true answered r = answered + stated r

  -- the time until which an answer asks to wait: its own, for status 429, and what it states
  pub asks_until : ℕ → Option Response → ℕ
  unfolding asks_of
  asks_until answered none = 0
  asks_until answered (some r) = asks_of (r.status == 429) answered r

  -- No exchange of the log asks to wait beyond the time.
  abbrev pub Respects : ℕ → List Exchange → Type 0
  Respects t [] = Unit {0}
  Respects t (e ∷ log) = (asks_until e.answered e.reply ≤ t) × Respects t log

  -- Each request of the log goes out when no earlier answer asks to wait.
  abbrev pub Spaced : List Exchange → Type 0
  Spaced [] = Unit {0}
  Spaced (e ∷ log) = Respects e.sent log × Spaced log

  Respects-mono : {t u : ℕ} (log : List Exchange) → t ≤ u → Respects t log → Respects u log
  Respects-mono [] h r = tt
  Respects-mono (e ∷ log) h (a, r) = (omega arith, Respects-mono log h r)

  -- what the loop keeps: the log is spaced, and at the time of the world nothing asks to wait
  abbrev pub Ready : Logged W → Type 0
  Ready s = Respects (web.now s.0) s.1 × Spaced s.1

  if-Spaced {ℓ} :
      {A : Type ℓ} (test : Bool) (x y : A × Logged W)
      → Spaced x.1.1
      → Spaced y.1.1
      → Spaced (if test then x else y).1.1
  if-Spaced true x y a b = a
  if-Spaced false x y a b = b

module _ {ℓ} {W : Type 0} {A : Type ℓ} (web : Web W) (clock : IsClock web) (route : Route A) where
  later-Ready :
      (s t : Logged W)
      → web.now s.0 ≤ web.now t.0
      → t.1 ≡ s.1
      → Ready web route.reads_header s
      → Ready web route.reads_header t
  later-Ready s t h e (r, spaced) = rw e (Respects-mono web route.reads_header s.1 h r, spaced)

  sleep-Ready :
      (d : ℕ) (s : Logged W)
      → Ready web route.reads_header s
      → Ready web route.reads_header (web.sleep d s.0, s.1)
  sleep-Ready d s ready =
      later-Ready s (web.sleep d s.0, s.1) (omega (arith, clock.sleeps d s.0)) refl ready

  wait-Ready :
      (until : ℕ) (s : Logged W)
      → Ready web route.reads_header s
      → Ready web route.reads_header (wait (logged web) until s)
  unfolding wait
  wait-Ready until s ready = elim (Bool-cases (ltb (web.now s.0) until)) [
    | inl e ↦ rw e (sleep-Ready (until - web.now s.0) s ready)
    | inr e ↦ rw e ready
  ]

  -- the time behind an answer, and the log
  abbrev Settled : ℕ → Option Response → List Exchange → Logged W → Type 0
  Settled answered reply log t =
      ((asks_until web route.reads_header answered reply ≤ web.now t.0) × (answered ≤ web.now t.0))
      × (t.1 ≡ log)

  stated-asked :
      (r : Response)
      → stated web route.reads_header r ≡ duration_or_zero (asked web route.reads_header r)
  unfolding stated asked duration_or_zero
  stated-asked r = ground arith

  asked-le-backoff :
      (n : ℕ) (r : Response)
      → duration_or_zero (asked web route.reads_header r) ≤ backoff web route.reads_header n r
  unfolding backoff duration_or_zero
  asked-le-backoff n r =
      elim (asked web route.reads_header r)
        as (λ o.
          duration_or_zero o
          ≤ elim o as (λ _. ℕ) [ none ↦ (n + 1) * 1500 * millisecond | some d ↦ d ]) [
            | none ↦ omega arith
            | some d ↦ omega arith
          ]

  hold_back-time :
      (n : ℕ) (l : Limits) (r : Response) (w : W) (log : List Exchange)
      → let t = (hold_back (logged web) route n l r (w, log)).1 in
        (web.now w + backoff web route.reads_header n r ≤ web.now t.0) × (t.1 ≡ log)
  unfolding hold_back
  hold_back-time n l r w log =
      let j = web.random route.jitter w in
      let d = backoff web route.reads_header n r + (50 + j.0) * millisecond in
      (omega (arith, clock.draws route.jitter w, clock.sleeps d j.1), refl)

  settle-time :
      (n : ℕ) (given : Option (Result WebError A)) (l : Limits) (w : W) (log : List Exchange)
      → let t = (settle (logged web) route.pause given n l (w, log)).1 in
        (web.now w ≤ web.now t.0) × (t.1 ≡ log)
  unfolding settle
  settle-time n none l w log =
      (omega (arith, clock.sleeps ((n + 1) * route.pause * millisecond) w), refl)
  settle-time n (some res) l w log = (omega arith, refl)

  verdict-Ready :
      (v : Attempt A) (l : Limits) (s : Logged W) (rest : (Result WebError A × Limits) × Logged W)
      → Ready web route.reads_header s
      → Ready web route.reads_header rest.1
      → let out = elim v as (λ _. (Result WebError A × Limits) × Logged W) [
        | finished r ↦ ((r, l), s)
        | again ↦ rest
      ] in
        Ready web route.reads_header out.1
  verdict-Ready (finished r) l s rest now then_ready = now
  verdict-Ready again l s rest now then_ready = then_ready

  after_send-Settled :
      (n : ℕ) (l : Limits) (w : W) (log : List Exchange) (reply : Option Response)
      → Settled (web.now w) reply log (after_send (logged web) route n l (reply, (w, log))).1
  unfolding after_send shake_off asks_until asks_of
  after_send-Settled n l w log none =
      let j = web.random 200 w in
      let drawn : web.now w ≤ web.now j.1 = clock.draws 200 w in
      let slept : web.now j.1 ≤ web.now (web.sleep ((100 + j.0) * millisecond) j.1) =
        omega (arith, clock.sleeps ((100 + j.0) * millisecond) j.1) in
      ((omega arith, omega arith), refl)
  after_send-Settled n l w log (some r) = elim (Bool-cases (r.status == 429)) [
    | inl e ↦ rw e (
        let held = hold_back-time n l r w log in
        (
          (omega (arith, held.0, asked-le-backoff n r, stated-asked r), omega (arith, held.0)),
          held.1,
        ))
    | inr e ↦ rw e (
        let settled = settle-time n (route.answer r) l w log in
        ((omega arith, settled.0), settled.1))
  ]

  send-Ready :
      (n : ℕ) (l : Limits) (s : Logged W)
      → Ready web route.reads_header s
      → Ready web route.reads_header
          (after_send (logged web) route n l ((logged web).send route.request s)).1
  send-Ready n l s (respects, spaced) =
      let a = web.send route.request s.0 in
      let e : Exchange = record {
        request = route.request;
        sent = web.now s.0;
        answered = web.now a.1;
        reply = a.0;
      } in
      let settled = after_send-Settled n l a.1 (e ∷ s.1) a.0 in
      let answer : web.now s.0 ≤ web.now a.1 = clock.sends route.request s.0 in
      rw settled.1 (
        (
          settled.0.0,
          Respects-mono web route.reads_header s.1 (omega (arith, settled.0.1)) respects,
        ),
        (respects, spaced),
      )

  limited_try-Ready :
      (n : ℕ) (l : Limits) (s : Logged W)
      → Ready web route.reads_header s
      → Ready web route.reads_header (limited_try (logged web) route n l s).1
  unfolding limited_try wait_both
  limited_try-Ready n l s ready =
      let w1 = wait-Ready (get_limiter route.key l) _ (wait-Ready l.global_lock s ready) in
      elim (Bool-cases (web.cancelled s.0)) [
        | inl e ↦ rw e ready
        | inr e ↦ elim (Bool-cases (web.valid_url route.request.url)) [
          | inl v ↦ rw (e, v) (send-Ready n l _ w1)
          | inr v ↦ rw (e, v) w1
        ]
      ]

  -- The requests of a call that waits for its limits are spaced as Discord asks.
  pub retry-Spaced :
      (exhausted : WebError) (left n : ℕ) (l : Limits) (s : Logged W)
      → Ready web route.reads_header s
      → Ready web route.reads_header
          (retry (logged web) (limited_try (logged web) route) exhausted left n l s).1
  unfolding retry
  retry-Spaced exhausted zero n l s ready = ready
  retry-Spaced exhausted (suc left) n l s ready =
      let out = limited_try (logged web) route n l s in
      let next = limited_try-Ready n l s ready in
      verdict-Ready out.0.0 out.0.1 out.1
        (retry (logged web) (limited_try (logged web) route) exhausted left (suc n) out.0.1 out.1)
        next (retry-Spaced exhausted left (suc n) out.0.1 out.1 next)

module _ {W : Type 0} (web : Web W) (clock : IsClock web) where
  -- Each request of an upload and of a deletion goes out when no answer with status 429 that the call has
  -- met states a duration that still runs, in its body or else in its header Retry-After; and each
  -- request of the look for an address when none does in its body, since that call does not read the
  -- header. This holds if the clock does not go back and sleeps are as long as asked.
  pub calls-Spaced :
      (bot channel webhook message id filename content : Text) (payload : List ℕ) (l : Limits)
      (w : W)
      → Spaced web true
          (upload_chunk (logged web) bot channel webhook filename content payload l (w, [])).1.1
        × (Spaced web false (attachment_url (logged web) bot channel message id l (w, [])).1.1
            × (Spaced web true (delete_message (logged web) bot channel message l (w, [])).1.1
                × Spaced web true (delete_channel (logged web) bot channel l (w, [])).1.1))
  unfolding upload_chunk attachment_url delete_message delete_channel upload_route attachment_route
      delete_route
  calls-Spaced bot channel webhook message id filename content payload l w = (
    (retry-Spaced web clock (upload_route web bot channel webhook filename content payload)
        rate_limited max_retries 0 l (w, []) (tt, tt)).1,
    (
      if-Spaced web false (empty channel) ((err no_channel, l), (w, [])) _ tt
          (retry-Spaced web clock (attachment_route web bot channel message id) rate_limited
            max_retries 0 l (w, []) (tt, tt)).1,
      (
        if-Spaced web true (empty channel || empty message) ((ok tt, l), (w, [])) _ tt
            (retry-Spaced web clock (delete_route web bot channel (message_url channel message))
              gave_up max_retries 0 l (w, []) (tt, tt)).1,
        if-Spaced web true (empty channel) ((ok tt, l), (w, [])) _ tt
            (retry-Spaced web clock (delete_route web bot channel (channel_url channel)) gave_up
              max_retries 0 l (w, []) (tt, tt)).1,
      ),
    ),
  )
