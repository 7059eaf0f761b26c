-- ===== src/Discord/Outcomes.antt =====
-- internal/discord/client.go: what the result of each call says of the requests that it made.
use discord_free_cloud.Base.{
  ℕ, ◌≤◌, List, [], ◌∷◌, true, false, some, ok, length, arith, ◌≡◌, refl, ap, ◌⊎◌, inl, inr, Text,
  Bool-cases, bytes_eq, ◌||◌, ◌==◌, ==_iff,
}
use discord_free_cloud.Discord.{Response, Web, gave_up, max_retries}
use discord_free_cloud.Discord.Retry.{Limits, limited_try, free_try}
use discord_free_cloud.Discord.Calls.{
  download_chunk, download_route, delete_message, delete_route, download_answer, delete_answer,
  is_deleted, other_status, message_url, empty,
}
use discord_free_cloud.Discord.Log.{Exchange, logged, Explains, limited_try-Tried, free_try-Tried}
use discord_free_cloud.Discord.Explained.{Explains-ok, retry-Explains}

-- the answers of Discord that mean that something is gone: it is deleted now, or was not there
abbrev pub SaysGone : ℕ → Type 0
SaysGone status = (status ≡ 200) ⊎ ((status ≡ 204) ⊎ (status ≡ 404))

module _ {W : Type 0} (web : Web W) where
  download_chunk-Explains :
      (url : Text) (l : Limits) (w : W)
      → let out = download_chunk (logged web) url l (w, []) in
        Explains web (download_route web url) gave_up max_retries out.1 out.0.0
  unfolding download_chunk download_route
  download_chunk-Explains url l w =
      let route = download_route web url in
      retry-Explains web route (free_try (logged web) route) (free_try-Tried web route) gave_up
        max_retries max_retries 0 l (w, []) tt refl

  download_answer_ok :
      (r : Response) (bytes : List ℕ)
      → download_answer web r ≡ some (ok bytes)
      → (r.status ≡ 200) × ((r.body ≡ bytes) × (r.cut_short ≡ false))
  unfolding download_answer other_status
  download_answer_ok r bytes h = ground arith

  delete_answer_ok : (r : Response) → delete_answer web r ≡ some (ok tt) → SaysGone r.status
  unfolding delete_answer other_status is_deleted
  delete_answer_ok r h = elim (Bool-cases (r.status == 200)) [
    | inl e ↦ inl ((==_iff r.status 200).0 e)
    | inr e ↦ elim (Bool-cases (r.status == 204)) [
      | inl f ↦ inr (inl ((==_iff r.status 204).0 f))
      | inr f ↦ inr (inr (ground arith))
    ]
  ]

  empty_or : (a b : Text) → (empty a || empty b) ≡ true → (a ≡ []) ⊎ (b ≡ [])
  unfolding empty bytes_eq
  empty_or [] b h = inl refl
  empty_or (x ∷ a) [] h = inr refl
  empty_or (x ∷ a) (y ∷ b) h = absurd (ground arith)

  -- Bytes of a file come from an answer with status 200 to a request for their address, which was read
  -- to its end, behind at most four other requests.
  pub download_chunk_ok :
      (url : Text) (bytes : List ℕ) (l : Limits) (w : W)
      → (download_chunk (logged web) url l (w, [])).0.0 ≡ ok bytes
      → (e : Exchange) × ((rest : List Exchange) × ((r : Response) × ((((download_chunk
                    (logged web)
                    url
                    l
                    (w, [])).1.1
                  ≡ (e ∷ rest))
                × (length rest ≤ 4))
              × (((e.request.url ≡ url) × (e.reply ≡ some r))
                  × ((r.status ≡ 200) × ((r.body ≡ bytes) × (r.cut_short ≡ false)))))))
  unfolding download_route
  download_chunk_ok url bytes l w h =
      let (e, (rest, (r, ((log, short), (asks, (replied, gives)))))) =
        Explains-ok web (download_route web url) bytes (download_chunk-Explains url l w) h in
      (
        e,
        (
          rest,
          (
            r,
            (
              (log, omega arith),
              ((ap (λ q. q.url) asks, replied), download_answer_ok r bytes gives),
            ),
          ),
        ),
      )

  -- A message is deleted only if the call names none, and asks nothing, or if Discord has answered with
  -- status 200 or 204, or with 404 for what was not there, behind at most four other requests.
  pub delete_message_ok :
      (bot channel message : Text) (l : Limits) (w : W)
      → let out = delete_message (logged web) bot channel message l (w, []) in
        out.0.0 ≡ ok tt
        → (((channel ≡ []) ⊎ (message ≡ [])) × (out.1.1 ≡ []))
          ⊎ ((e : Exchange) × ((rest : List Exchange) × ((r : Response) × (((out.1.1 ≡ (e ∷ rest))
                      × (length rest ≤ 4))
                    × (((e.request.url ≡ message_url channel message) × (e.reply ≡ some r))
                        × SaysGone r.status)))))
  unfolding delete_message delete_route
  delete_message_ok bot channel message l w = elim (Bool-cases (empty channel || empty message)) [
    | inl e ↦ rw e (λ h. inl (empty_or channel message e, refl))
    | inr e ↦ rw e (λ h.
        let route = delete_route web bot channel (message_url channel message) in
        let (x, (rest, (r, ((log, short), (asks, (replied, gives)))))) =
          Explains-ok web route tt
            (retry-Explains web route (limited_try (logged web) route) (limited_try-Tried web route)
              gave_up max_retries max_retries 0 l (w, []) tt refl)
            h in
        inr (
          x,
          (
            rest,
            (r, ((log, omega arith), ((ap (λ q. q.url) asks, replied), delete_answer_ok r gives))),
          ),
        ))
  ]
