-- ===== src/Discord/Uploaded.antt =====
-- internal/discord/client.go: what the result of `UploadChunk` says of the requests that it made.
use discord_free_cloud.Base.{
  ℕ, ◌≤◌, ◌<◌, List, [], ◌∷◌, Bool, true, false, ◌&&◌, Option, some, none, Result, ok, err, length,
  arith, ◌≡◌, refl, ap, ◌∙◌, ◌⊎◌, inl, inr, Text, Bool-cases, bytes_eq, leb, ltb, if◌then◌else◌,
}
use discord_free_cloud.Discord.{
  Attachment, Message, Response, Web, WebError, cancelled, bad_request, bad_answer, no_file,
  bad_status, rate_limited, max_retries, HttpRequest,
}
use discord_free_cloud.Discord.Retry.{Limits, limited_try}
use discord_free_cloud.Discord.Calls.{
  UploadChunkResult, upload_chunk, upload_route, upload_answer, uploaded, upload_request,
  other_status, empty,
}
use discord_free_cloud.Discord.Explained.{retry-Explains}
use discord_free_cloud.Discord.Log.{
  Exchange, Logged, logged, Fails, AllFail, by_context, by_address, Explains, by_answer, by_stop,
  by_exhaustion, limited_try-Tried,
}

module _ {W : Type 0} (web : Web W) (request : HttpRequest) (channel : Text) where
  -- an exchange without an answer, with a rate limit or with an error of the server
  abbrev pub Unserved : Exchange → Type 0
  Unserved e = elim e.reply [ none ↦ Unit {0} | some r ↦ (r.status ≡ 429) ⊎ (500 ≤ r.status) ]

  -- All exchanges are of the request, and none has served it.
  abbrev pub AllUnserved : List Exchange → Type 0
  AllUnserved [] = Unit {0}
  AllUnserved (e ∷ log) = (e.request ≡ request) × (Unserved e × AllUnserved log)

  -- what an answer that serves the request, or refuses it for good, gives
  pub data Answered (r : Response) : Result WebError UploadChunkResult → Type 0 where
    unreadable :
        200 ≤ r.status
        → r.status < 300
        → (web.read_message r.body).1 ≡ false
        → Answered r (err bad_answer)
    without_file :
        200 ≤ r.status
        → r.status < 300
        → (web.read_message r.body).1 ≡ true
        → (web.read_message r.body).0.attachments ≡ []
        → Answered r (err no_file)
    stored :
        (m : Message) (a : Attachment) (others : List Attachment)
        → 200 ≤ r.status
        → r.status < 300
        → web.read_message r.body ≡ (m, true)
        → m.attachments ≡ a ∷ others
        → Answered r (
            ok (record {
              message_id = m.id;
              attachment_id = a.id;
              attachment_url = a.url;
              channel_id = if bytes_eq m.channel_id [] then channel else m.channel_id;
            }))
    refused :
        (r.status < 200) ⊎ (300 ≤ r.status)
        → r.status < 500
        → Answered r (err (bad_status r.status))

  -- What the exchanges of an upload, the world that it leaves and its result have to do with each other.
  pub data Explained : Logged W → Result WebError UploadChunkResult → Type 0 where
    answered :
        (w : W) (e : Exchange) (before : List Exchange) (r : Response)
        (res : Result WebError UploadChunkResult)
        → e.request ≡ request
        → e.reply ≡ some r
        → Answered r res
        → AllUnserved before
        → length before ≤ 4
        → Explained (w, e ∷ before) res
    out_of_time :
        (w : W) (log : List Exchange)
        → web.cancelled w ≡ true
        → AllUnserved log
        → length log ≤ 5
        → Explained (w, log) (err cancelled)
    no_address :
        (w : W) (log : List Exchange)
        → web.valid_url request.url ≡ false
        → AllUnserved log
        → length log ≤ 5
        → Explained (w, log) (err bad_request)
    five_tries :
        (w : W) (log : List Exchange)
        → AllUnserved log
        → length log ≡ 5
        → Explained (w, log) (err rate_limited)

  uploaded-files :
      (r : Response) (m : Message) (files : List Attachment)
      → web.read_message r.body ≡ (m, true)
      → m.attachments ≡ files
      → 200 ≤ r.status
      → r.status < 300
      → Answered r (uploaded channel (m, true))
  unfolding uploaded empty
  uploaded-files r m [] e f lo hi = rw f (
      without_file lo hi (ap (λ (t : Message × Bool). t.1) e)
        (ap (λ (t : Message × Bool). t.0.attachments) e ∙ f))
  uploaded-files r m (a ∷ others) e f lo hi = rw f (stored m a others lo hi e f)

  uploaded-Answered :
      (r : Response) (read : Message × Bool)
      → web.read_message r.body ≡ read
      → 200 ≤ r.status
      → r.status < 300
      → Answered r (uploaded channel read)
  unfolding uploaded
  uploaded-Answered r (m, false) e lo hi = unreadable lo hi (ap (λ (t : Message × Bool). t.1) e)
  uploaded-Answered r (m, true) e lo hi = uploaded-files r m m.attachments e refl lo hi

  outside_success : (n : ℕ) → (leb 200 n && ltb n 300) ≡ false → (n < 200) ⊎ (300 ≤ n)
  outside_success n e = elim (Bool-cases (ltb n 200)) [
    | inl low ↦ inl (ground (arith, low))
    | inr high ↦ inr (ground (arith, e, high))
  ]

  refused_status :
      (r : Response) (res : Result WebError UploadChunkResult)
      → (r.status < 200) ⊎ (300 ≤ r.status)
      → other_status r.status ≡ some res
      → Answered r res
  unfolding other_status
  refused_status r res out = elim (Bool-cases (leb 500 r.status)) [
    | inl e ↦ rw e (λ h. absurd (cc))
    | inr e ↦ rw e (λ h.
        let same : err (bad_status r.status) ≡ res = cc in
        rw (← same) (refused out (ground (arith, e))))
  ]

  upload_answer-Answered :
      (r : Response) (res : Result WebError UploadChunkResult)
      → upload_answer web channel r ≡ some res
      → Answered r res
  unfolding upload_answer
  upload_answer-Answered r res = elim (Bool-cases (leb 200 r.status && ltb r.status 300)) [
    | inl e ↦ rw e (λ h.
        let same : uploaded channel (web.read_message r.body) ≡ res = cc in
        rw (← same) (
          uploaded-Answered r (web.read_message r.body) refl (ground (arith, e))
            (ground (arith, e))))
    | inr e ↦ rw e (refused_status r res (outside_success r.status e))
  ]

  upload_answer-none : (r : Response) → upload_answer web channel r ≡ none → 500 ≤ r.status
  unfolding upload_answer other_status
  upload_answer-none r h = ground (arith, h)

module _ {W : Type 0} (web : Web W) (bot channel webhook filename content : Text)
    (payload : List ℕ) where
  abbrev Posted : HttpRequest
  Posted = upload_request bot channel webhook filename content payload

  Fails-Unserved :
      (e : Exchange) (reply : Option Response)
      → e.reply ≡ reply
      → Fails (upload_route web bot channel webhook filename content payload) e
      → Unserved web Posted channel e
  unfolding upload_route
  Fails-Unserved e none replied = rw replied (λ h. tt)
  Fails-Unserved e (some r) replied = rw replied (λ h. elim h [
    | inl limited ↦ inl limited
    | inr nothing ↦ inr (upload_answer-none web Posted channel r nothing)
  ])

  AllFail-AllUnserved :
      (log : List Exchange)
      → AllFail (upload_route web bot channel webhook filename content payload) log
      → AllUnserved web Posted channel log
  unfolding upload_route
  AllFail-AllUnserved [] h = tt
  AllFail-AllUnserved (e ∷ log) (asks, (failed, rest)) =
      (asks, (Fails-Unserved e e.reply refl failed, AllFail-AllUnserved log rest))

  Explains-Explained :
      (s : Logged W) (res : Result WebError UploadChunkResult)
      → Explains web
          (upload_route web bot channel webhook filename content payload)
          rate_limited
          max_retries
          s
          res
      → Explained web Posted channel s res
  unfolding upload_route
  Explains-Explained s res (by_answer w e rest r given asks replied gives failed count) =
      answered w e rest r given asks replied
        (upload_answer-Answered web Posted channel r given gives) (AllFail-AllUnserved rest failed)
        (omega arith)
  Explains-Explained s res (by_stop w log c (by_context e) failed count) =
      out_of_time w log e (AllFail-AllUnserved log failed) (omega arith)
  Explains-Explained s res (by_stop w log c (by_address e) failed count) =
      no_address w log e (AllFail-AllUnserved log failed) (omega arith)
  Explains-Explained s res (by_exhaustion w log failed count) =
      five_tries w log (AllFail-AllUnserved log failed) (omega arith)

  -- The requests of an upload are up to five of the one request, and they explain its result: all but
  -- the newest have met no answer, status 429 or a status from 500 on; and the newest has an answer of
  -- status 2xx, whose message gives the ids and the address of its first attachment, or the error for an
  -- answer that cannot be read or that has no attachment; or it has another status below 500, and the
  -- result is the error with that status; or the context is cancelled when the call ends, or the address
  -- of the request is none, and the result is the error for that; or all five have met no answer, status
  -- 429 or a status from 500 on, and the result is the error of a rate limit.
  pub upload_chunk-Explained :
      (l : Limits) (w : W)
      → let out =
          upload_chunk (logged web) bot channel webhook filename content payload l (w, []) in
        Explained web
          (upload_request bot channel webhook filename content payload)
          channel
          out.1
          out.0.0
  unfolding upload_chunk upload_route
  upload_chunk-Explained l w =
      let route = upload_route web bot channel webhook filename content payload in
      Explains-Explained _ _ (
        retry-Explains web route (limited_try (logged web) route) (limited_try-Tried web route)
          rate_limited max_retries max_retries 0 l (w, []) tt refl)
