-- ===== src/Discord/Log.antt =====
-- internal/discord/client.go: a world that notes each request, newest first, with the time it goes
-- out, the time of the answer and the answer; and how the calls are seen in it.
use discord_free_cloud.Base.{
  true, false, ℕ, ◌+◌, ◌≤◌, List, [], ◌∷◌, Option, some, none, Result, err, length, arith, ◌≡◌,
  refl, ◌⊎◌, inl, inr, Text, ◌==◌, ==_iff, ◌∙◌, Bool-cases,
}
use discord_free_cloud.Discord.{HttpRequest, Response, Web, WebError, cancelled, bad_request}
use discord_free_cloud.Discord.Retry.{
  Limits, Route, Attempt, finished, again, limited_try, free_try, after_send, hold_back, settle,
  shake_off, wait_both, wait, get_limiter, after_free,
}

pub record Exchange : Type 0 where
  pub request : HttpRequest
  pub sent : ℕ
  pub answered : ℕ
  pub reply : Option Response

-- a world with the log of its requests
abbrev pub Logged : Type 0 → Type 0
Logged W = W × List Exchange

abbrev pub logged : {W : Type 0} → Web W → Web (Logged W)
logged web = record {
  send = λ r s.
      let a = web.send r s.0 in
      (
        a.0,
        (
          a.1,
          record { request = r; sent = web.now s.0; answered = web.now a.1; reply = a.0 } ∷ s.1,
        ),
      );
  cancelled = λ s. web.cancelled s.0;
  now = λ s. web.now s.0;
  sleep = λ d s. (web.sleep d s.0, s.1);
  random = λ n s. let a = web.random n s.0 in (a.0, (a.1, s.1));
  valid_url = web.valid_url;
  float_seconds = web.float_seconds;
  read_limit = web.read_limit;
  read_message = web.read_message;
  read_messages = web.read_messages;
  read_channel = web.read_channel;
  read_channels = web.read_channels;
  read_webhook = web.read_webhook;
  read_webhooks = web.read_webhooks;
}

module _ {ℓ} {A : Type ℓ} (route : Route A) where
  -- an exchange that leaves the call to try again: no answer, a rate limit, or an error of the server
  abbrev pub Fails : Exchange → Type ℓ
  Fails e = elim e.reply [ none ↦ Unit {ℓ} | some r ↦ (r.status ≡ 429) ⊎ (route.answer r ≡ none) ]

  -- Every exchange is one of the route's request that fails.
  abbrev pub AllFail : List Exchange → Type ℓ
  AllFail [] = Unit {ℓ}
  AllFail (e ∷ log) = (e.request ≡ route.request) × (Fails e × AllFail log)

module _ {ℓ} {W : Type 0} {A : Type ℓ} (web : Web W) (route : Route A) where
  -- what ends a call without an answer: its context is cancelled by then, or its address is no address
  pub data IsStop (w : W) : WebError → Type 0 where
    by_context : web.cancelled w ≡ true → IsStop w cancelled
    by_address : web.valid_url route.request.url ≡ false → IsStop w bad_request

  -- What an attempt does to the log and comes to, with the world that it leaves.
  pub data Tried (log : List Exchange) : Logged W → Attempt A → Type ℓ where
    fails :
        (w : W) (e : Exchange)
        → e.request ≡ route.request
        → Fails route e
        → Tried log (w, e ∷ log) again
    answers :
        (w : W) (e : Exchange) (r : Response) (res : Result WebError A)
        → e.request ≡ route.request
        → e.reply ≡ some r
        → route.answer r ≡ some res
        → Tried log (w, e ∷ log) (finished res)
    stops : (w : W) (c : WebError) → IsStop w c → Tried log (w, log) (finished (err c))

  -- How the exchanges of a call explain its result: the newest of them has the answer that gives it,
  -- or the call was stopped, or every attempt has failed. All other exchanges fail.
  pub data Explains (exhausted : WebError) (attempts : ℕ)
      : Logged W → Result WebError A → Type ℓ where
    by_answer :
        (w : W) (e : Exchange) (rest : List Exchange) (r : Response) (res : Result WebError A)
        → e.request ≡ route.request
        → e.reply ≡ some r
        → route.answer r ≡ some res
        → AllFail route rest
        → length rest + 1 ≤ attempts
        → Explains exhausted attempts (w, e ∷ rest) res
    by_stop :
        (w : W) (log : List Exchange) (c : WebError)
        → IsStop w c
        → AllFail route log
        → length log ≤ attempts
        → Explains exhausted attempts (w, log) (err c)
    by_exhaustion :
        (w : W) (log : List Exchange)
        → AllFail route log
        → length log ≡ attempts
        → Explains exhausted attempts (w, log) (err exhausted)

module _ {ℓ} {W : Type 0} {A : Type ℓ} (web : Web W) (route : Route A) where
  -- waiting notes nothing
  wait-log : (until : ℕ) (s : Logged W) → (wait (logged web) until s).1 ≡ s.1
  unfolding wait
  wait-log until s = ground arith

  pub wait_both-log :
      (key : Text) (l : Limits) (s : Logged W) → (wait_both (logged web) key l s).1 ≡ s.1
  unfolding wait_both
  wait_both-log key l s = wait-log (get_limiter key l) _ ∙ wait-log l.global_lock s

  hold_back-log :
      (n : ℕ) (l : Limits) (r : Response) (s : Logged W)
      → (hold_back (logged web) route n l r s).1.1 ≡ s.1
  unfolding hold_back
  hold_back-log n l r s = refl

  settle-log :
      (n : ℕ) (l : Limits) (given : Option (Result WebError A)) (s : Logged W)
      → (settle (logged web) route.pause given n l s).1.1 ≡ s.1
  unfolding settle
  settle-log n l none s = refl
  settle-log n l (some res) s = refl

  -- nor does what stands behind the request
  pub after_send-log :
      (n : ℕ) (l : Limits) (reply : Option Response) (s : Logged W)
      → (after_send (logged web) route n l (reply, s)).1.1 ≡ s.1
  unfolding after_send shake_off
  after_send-log n l none s = refl
  after_send-log n l (some r) s = elim (Bool-cases (r.status == 429)) [
    | inl e ↦ rw e (hold_back-log n l r s)
    | inr e ↦ rw e (settle-log n l (route.answer r) s)
  ]

  settle-Tried :
      (n : ℕ) (l : Limits) (w : W) (log : List Exchange) (e : Exchange) (r : Response)
      (given : Option (Result WebError A))
      → e.request ≡ route.request
      → e.reply ≡ some r
      → route.answer r ≡ given
      → let out = settle (logged web) route.pause given n l (w, e ∷ log) in
        Tried web route log out.1 out.0.0
  unfolding settle
  settle-Tried n l w log e r none asks replied gives = fails _ e asks (rw replied (inr gives))
  settle-Tried n l w log e r (some res) asks replied gives = answers _ e r res asks replied gives

  after_send-Tried :
      (n : ℕ) (l : Limits) (w : W) (log : List Exchange) (e : Exchange) (reply : Option Response)
      → e.request ≡ route.request
      → e.reply ≡ reply
      → let out = after_send (logged web) route n l (reply, (w, e ∷ log)) in
        Tried web route log out.1 out.0.0
  unfolding after_send shake_off hold_back
  after_send-Tried n l w log e none asks replied = fails _ e asks (rw replied tt)
  after_send-Tried n l w log e (some r) asks replied = elim (Bool-cases (r.status == 429)) [
    | inl limited ↦ rw limited (fails _ e asks (rw replied (inl ((==_iff r.status 429).0 limited))))
    | inr other ↦ rw other (settle-Tried n l w log e r (route.answer r) asks replied refl)
  ]

  send-Tried :
      (n : ℕ) (l : Limits) (s : Logged W) (log : List Exchange)
      → s.1 ≡ log
      → let out = after_send (logged web) route n l ((logged web).send route.request s) in
        Tried web route log out.1 out.0.0
  send-Tried n l s log e =
      let a = web.send route.request s.0 in
      rw (← e) (
        after_send-Tried n l a.1 s.1
          (record {
            request = route.request;
            sent = web.now s.0;
            answered = web.now a.1;
            reply = a.0;
          })
          a.0 refl refl)

  after_free-Tried :
      (n : ℕ) (l : Limits) (w : W) (log : List Exchange) (e : Exchange) (reply : Option Response)
      → e.request ≡ route.request
      → e.reply ≡ reply
      → let out = after_free (logged web) route n l (reply, (w, e ∷ log)) in
        Tried web route log out.1 out.0.0
  unfolding after_free shake_off
  after_free-Tried n l w log e none asks replied = fails _ e asks (rw replied tt)
  after_free-Tried n l w log e (some r) asks replied =
      settle-Tried n l w log e r (route.answer r) asks replied refl

  -- a world with the log as it was, for a request that has no address
  stops_at :
      (log : List Exchange) (s : Logged W)
      → s.1 ≡ log
      → web.valid_url route.request.url ≡ false
      → Tried web route log s (finished (err bad_request))
  stops_at log s e v = rw (← e) (stops s.0 bad_request (by_address v))

  pub limited_try-Tried :
      (n : ℕ) (l : Limits) (s : Logged W)
      → Tried web route s.1
          (limited_try (logged web) route n l s).1
          (limited_try (logged web) route n l s).0.0
  unfolding limited_try
  limited_try-Tried n l s = elim (Bool-cases (web.cancelled s.0)) [
    | inl e ↦ rw e (stops s.0 cancelled (by_context e))
    | inr e ↦ elim (Bool-cases (web.valid_url route.request.url)) [
      | inl v ↦
          rw (e, v)
            (send-Tried n l (wait_both (logged web) route.key l s) s.1
              (wait_both-log route.key l s))
      | inr v ↦
          rw (e, v)
            (stops_at s.1 (wait_both (logged web) route.key l s) (wait_both-log route.key l s) v)
    ]
  ]

  pub free_try-Tried :
      (n : ℕ) (l : Limits) (s : Logged W)
      → Tried web route s.1
          (free_try (logged web) route n l s).1
          (free_try (logged web) route n l s).0.0
  unfolding free_try
  free_try-Tried n l s = elim (Bool-cases (web.cancelled s.0)) [
    | inl e ↦ rw e (stops s.0 cancelled (by_context e))
    | inr e ↦ elim (Bool-cases (web.valid_url route.request.url)) [
      | inl v ↦
          let a = web.send route.request s.0 in
          rw (e, v)
            (after_free-Tried n l a.1 s.1
              (record {
                request = route.request;
                sent = web.now s.0;
                answered = web.now a.1;
                reply = a.0;
              })
              a.0 refl refl)
      | inr v ↦ rw (e, v) (stops _ bad_request (by_address v))
    ]
  ]
