-- ===== src/Discord/Retry.antt =====
-- internal/discord/client.go: `RateLimitTracker` and the loop of attempts that the calls of the client
-- share. A time of a tracker is in `Limits`, under its key; a key that is not there has a new tracker,
-- which blocks nothing.
use discord_free_cloud.Base.{
  ℕ, zero, suc, ◌+◌, ◌-◌, ◌*◌, List, [], Bool, true, false, not, Option, some, none, Result, err,
  ltb, ◌==◌, if◌then◌else◌, Text, lookup, insert, bytes_eq,
}
use discord_free_cloud.Discord.{
  RateLimitResponse, HttpRequest, Response, Web, WebError, bad_request, millisecond, second,
}
use discord_free_cloud.Discord

pub record Limits : Type 0 where
  pub global_lock : ℕ
  pub limiters : List (Text × ℕ)

time_or_zero : Option ℕ → ℕ
time_or_zero none = 0
time_or_zero (some t) = t

-- `getLimiter`, as the time that the tracker blocks to
unfoldable pub get_limiter : Text → Limits → ℕ
unfolding time_or_zero
get_limiter key l = time_or_zero (lookup key l.limiters)

-- `Block` of a tracker
unfoldable pub blocked_until : (target old : ℕ) → ℕ
blocked_until target old = if ltb old target then target else old

-- what an attempt comes to
pub data Attempt {ℓ} (A : Type ℓ) : Type ℓ where
  finished : Result WebError A → Attempt A
  again : Attempt A

-- A call that waits for its limits: its key, its request, whether it reads the header Retry-After, the
-- range of its jitter and its pause behind an error of the server, in milliseconds. `answer` is what it
-- makes of an answer that is no rate limit; `none` is an error of the server.
pub record Route {ℓ} (A : Type ℓ) : Type ℓ where
  pub key : Text
  pub request : HttpRequest
  pub reads_header : Bool
  pub jitter : ℕ
  pub pause : ℕ
  pub answer : Response → Option (Result WebError A)

-- `Block` on the tracker that the answer names
unfoldable pub block : (global : Bool) (key : Text) (target : ℕ) → Limits → Limits
unfolding blocked_until get_limiter time_or_zero
block true key target l = record l { global_lock = blocked_until target l.global_lock }
block false key target l = record l {
  limiters = insert key (blocked_until target (get_limiter key l)) l.limiters;
}

module _ {W : Type 0} (web : Web W) where
  -- `Wait` of a tracker
  unfoldable pub wait : (until : ℕ) → W → W
  wait until w = if ltb (web.now w) until then web.sleep (until - web.now w) w else w

  -- `Wait` of the tracker for all calls, then of the one of the key
  unfoldable pub wait_both : Text → Limits → W → W
  unfolding wait get_limiter time_or_zero
  wait_both key l w = wait (get_limiter key l) (wait l.global_lock w)

  header_seconds : Text → Option ℕ
  header_seconds header = if bytes_eq header [] then none else web.float_seconds header

  or_else : Option ℕ → Option ℕ → Option ℕ
  or_else none b = b
  or_else (some a) b = some a

  -- the duration to back off for: what the body asks for, else the header if it is read
  unfoldable pub asked : (reads_header : Bool) → Response → Option ℕ
  unfolding or_else header_seconds
  asked reads_header r =
      or_else (web.read_limit r.body).retry_after
        (if reads_header then header_seconds r.retry_header else none)

  -- without either it is a second and a half for each attempt so far
  unfoldable pub backoff : (reads_header : Bool) (attempt : ℕ) → Response → ℕ
  unfolding asked or_else header_seconds
  backoff reads_header attempt r = elim (asked reads_header r) [
    | none ↦ (attempt + 1) * 1500 * millisecond
    | some d ↦ d
  ]

  module _ {ℓ} {A : Type ℓ} where
    -- behind status 429: the tracker is blocked, and the attempt sleeps
    unfoldable pub hold_back : Route A → ℕ → Limits → Response → W → (Attempt A × Limits) × W
    unfolding block backoff asked or_else header_seconds blocked_until get_limiter time_or_zero
    hold_back route attempt l r w =
        let j = web.random route.jitter w in
        let d = backoff route.reads_header attempt r + (50 + j.0) * millisecond in
        (
          (again, block (web.read_limit r.body).global route.key (web.now j.1 + d) l),
          web.sleep d j.1,
        )

    -- behind an answer that is not a rate limit
    unfoldable pub settle :
        (pause : ℕ) → Option (Result WebError A) → ℕ → Limits → W → (Attempt A × Limits) × W
    settle pause none attempt l w = ((again, l), web.sleep ((attempt + 1) * pause * millisecond) w)
    settle pause (some r) attempt l w = ((finished r, l), w)

    -- behind an error of the network
    unfoldable pub shake_off : Limits → W → (Attempt A × Limits) × W
    shake_off l w =
        let j = web.random 200 w in ((again, l), web.sleep ((100 + j.0) * millisecond) j.1)

    unfoldable pub after_send :
        Route A → ℕ → Limits → Option Response × W → (Attempt A × Limits) × W
    unfolding shake_off hold_back settle block backoff asked or_else header_seconds blocked_until
        get_limiter time_or_zero
    after_send route attempt l (none, w) = shake_off l w
    after_send route attempt l (some r, w) =
        if r.status == 429
        then hold_back route attempt l r w
        else settle route.pause (route.answer r) attempt l w

    -- an attempt of a call that waits for its limits
    unfoldable pub limited_try : Route A → ℕ → Limits → W → (Attempt A × Limits) × W
    unfolding wait_both wait get_limiter time_or_zero after_send shake_off hold_back settle block
        backoff asked or_else header_seconds blocked_until
    limited_try route attempt l w =
        if web.cancelled w
        then ((finished (err Discord.cancelled), l), w)
        else let w1 = wait_both route.key l w in
          if not (web.valid_url route.request.url)
          then ((finished (err bad_request), l), w1)
          else after_send route attempt l (web.send route.request w1)

    unfoldable pub after_free :
        Route A → ℕ → Limits → Option Response × W → (Attempt A × Limits) × W
    unfolding shake_off settle
    after_free route attempt l (none, w) = shake_off l w
    after_free route attempt l (some r, w) = settle route.pause (route.answer r) attempt l w

    -- an attempt of a call that waits for no limit, as that of a file's bytes
    unfoldable pub free_try : Route A → ℕ → Limits → W → (Attempt A × Limits) × W
    unfolding after_free shake_off settle
    free_try route attempt l w =
        if web.cancelled w
        then ((finished (err Discord.cancelled), l), w)
        else if not (web.valid_url route.request.url)
        then ((finished (err bad_request), l), w)
        else after_free route attempt l (web.send route.request w)

    -- The loop of attempts, of which some are left; `exhausted` is the error behind the last one.
    unfoldable pub retry :
        (ℕ → Limits → W → (Attempt A × Limits) × W)
        → WebError
        → (left attempt : ℕ) → Limits
        → W
        → (Result WebError A × Limits) × W
    retry try exhausted zero attempt l w = ((err exhausted, l), w)
    retry try exhausted (suc left) attempt l w =
        let ((verdict, l1), w1) = try attempt l w in
        elim verdict [
          | finished r ↦ ((r, l1), w1)
          | again ↦ retry try exhausted left (suc attempt) l1 w1
        ]
