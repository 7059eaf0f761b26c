-- ===== src/Discord/Explained.antt =====
-- internal/discord/client.go: the exchanges of a whole call, over all its attempts.
use discord_free_cloud.Base.{
  ℕ, zero, suc, ◌+◌, ◌≤◌, List, ◌∷◌, some, Result, ok, length, arith, ◌≡◌, refl, ap, ◌∙◌,
}
use discord_free_cloud.Discord.{Response, Web, WebError}
use discord_free_cloud.Discord.Retry.{Limits, Route, Attempt, finished, again, retry}
use discord_free_cloud.Discord.Log.{
  Exchange, Logged, logged, AllFail, Tried, fails, answers, stops, Explains, by_answer, by_stop,
  by_exhaustion,
}

module _ {ℓ} {W : Type 0} {A : Type ℓ} (web : Web W) (route : Route A)
    (try : ℕ → Limits → Logged W → (Attempt A × Limits) × Logged W)
    (steps : (n : ℕ) (l : Limits) (s : Logged W)
      → Tried web route s.1 (try n l s).1 (try n l s).0.0)
    (exhausted : WebError) (attempts : ℕ) where
  verdict-Explains :
      {log : List Exchange} {s : Logged W} {v : Attempt A} (left : ℕ) (l : Limits)
      (rest : (Result WebError A × Limits) × Logged W)
      → Tried web route log s v
      → AllFail route log
      → length log + suc left ≡ attempts
      → (AllFail route s.1
          → length s.1 + left ≡ attempts
          → Explains web route exhausted attempts rest.1 rest.0.0)
      → let out = elim v as (λ _. (Result WebError A × Limits) × Logged W) [
        | finished r ↦ ((r, l), s)
        | again ↦ rest
      ] in
        Explains web route exhausted attempts out.1 out.0.0
  verdict-Explains left l rest (fails w e asks failing) failed count go =
      go (asks, (failing, failed)) (omega arith)
  verdict-Explains left l rest (answers w e r res asks replied gives) failed count go =
      by_answer w e _ r res asks replied gives failed (omega arith)
  verdict-Explains left l rest (stops w c stop) failed count go =
      by_stop w _ c stop failed (omega arith)

  pub retry-Explains :
      (left n : ℕ) (l : Limits) (s : Logged W)
      → AllFail route s.1
      → length s.1 + left ≡ attempts
      → Explains web route exhausted attempts
          (retry (logged web) try exhausted left n l s).1
          (retry (logged web) try exhausted left n l s).0.0
  unfolding retry
  retry-Explains zero n l (w, log) failed count = by_exhaustion w log failed (omega arith)
  retry-Explains (suc left) n l s failed count =
      let out = try n l s in
      verdict-Explains left out.0.1 (retry (logged web) try exhausted left (suc n) out.0.1 out.1)
        (steps n l s) failed count (retry-Explains left (suc n) out.0.1 out.1)

-- A call that succeeds has the answer of the newest exchange.
pub Explains-ok {ℓ} :
    {W : Type 0} {A : Type ℓ} (web : Web W) (route : Route A) {exhausted : WebError} {attempts : ℕ}
    {s : Logged W} {res : Result WebError A} (a : A)
    → Explains web route exhausted attempts s res
    → res ≡ ok a
    → (e : Exchange) × ((rest : List Exchange) × ((r : Response) × (((s.1 ≡ (e ∷ rest))
              × (length rest + 1 ≤ attempts))
            × ((e.request ≡ route.request)
                × ((e.reply ≡ some r) × (route.answer r ≡ some (ok a)))))))
Explains-ok web route a (by_answer w e rest r res asks replied gives failed count) h =
    (e, (rest, (r, ((refl, count), (asks, (replied, gives ∙ ap some h))))))
Explains-ok web route a (by_stop w log c stop failed count) h = absurd (ground arith)
Explains-ok web route a (by_exhaustion w log failed count) h = absurd (ground arith)
