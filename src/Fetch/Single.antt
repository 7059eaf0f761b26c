-- ===== src/Fetch/Single.antt =====
-- internal/downloader/downloader.go: which parts `fetchSingleChunk` can give back.
use discord_free_cloud.Base.{
  ℕ, ◌+◌, ◌^◌, ◌<◌, ◌≡◌, refl, sym, ap, ◌∙◌, List, [], ◌∷◌, true, false, Option, some, none, Result,
  ok, err, length, ◌==◌, if◌then◌else◌, arith, Text, label, bytes_eq, bytes_eq_iff, bytes_eq_refl,
  has, Bool-cases, inl, inr, ◌⊎◌, Option-cases,
}
use discord_free_cloud.Png.{wrap_png}
use discord_free_cloud.Png.RoundTrip.{unwrap_png-wrap_png, length-wrap_png}
use discord_free_cloud.Png.Bounds.{unwrap_png_total}
use discord_free_cloud.Aead.{Aead, is_aes_key, decrypt_chunk, nonce_size}
use discord_free_cloud.Aead.RoundTrip.{
  sealed, length-sealed, decrypt_chunk-other, decrypt_chunk_self,
}
use discord_free_cloud.Db.{ChunkRecord, Store}
use discord_free_cloud.Fetch.{
  DiscordApi, unlock_error, is_good, candidates, try_candidates, first_download, fresh_download,
  refreshed, by_fresh_link, unlock, originals, fetch_single_chunk, unlock_download,
}

pub Result-cases {ℓ κ} :
    {E : Type κ} {A : Type ℓ} (r : Result E A) → ((a : A) × (r ≡ ok a)) ⊎ ((e : E) × (r ≡ err e))
Result-cases (ok a) = inl (a, refl)
Result-cases (err e) = inr (e, refl)

module _ (aead : Aead) where
  module _ (key nonce plaintext aad : List ℕ) (k : is_aes_key key ≡ true)
      (n12 : length nonce ≡ nonce_size) where
    abbrev payload : List ℕ
    payload = sealed aead key nonce plaintext aad n12

    -- A sealed payload opens among any candidates that hold its additional data.
    try_candidates-sealed :
        (aads : List Text)
        → 0 < length plaintext
        → has aad aads ≡ true
        → try_candidates aead payload key aads ≡ some plaintext
    unfolding try_candidates has
    try_candidates-sealed [] h m = cc
    try_candidates-sealed (b ∷ aads) h m = elim (Result-cases (decrypt_chunk aead payload key b)) [
      | inl (dec, opens) ↦
          let same : dec ≡ plaintext =
            decrypt_chunk-other aead key nonce plaintext aad n12 b dec k opens in
          rw (opens, same) (ground arith)
      | inr (e, shut) ↦
          let other : bytes_eq b aad ≡ false = elim (Bool-cases (bytes_eq b aad)) [
            | inr no_match ↦ no_match
            | inl match ↦
                let e' : b ≡ aad = (bytes_eq_iff b aad).0 match in
                let own : ok plaintext ≡ err e =
                  sym (decrypt_chunk_self aead key nonce plaintext aad n12 k) ∙ rw e' at shut in
                cc
          ] in
          rw shut (try_candidates-sealed aads h (rw other at m))
    ]

    -- A sealed empty part opens among no candidates: an empty plaintext does not count.
    try_candidates-empty :
        (aads : List Text) → length plaintext ≡ 0 → try_candidates aead payload key aads ≡ none
    unfolding try_candidates
    try_candidates-empty [] h = refl
    try_candidates-empty (b ∷ aads) h = elim (Result-cases (decrypt_chunk aead payload key b)) [
      | inl (dec, opens) ↦
          let same : dec ≡ plaintext =
            decrypt_chunk-other aead key nonce plaintext aad n12 b dec k opens in
          rw (opens, same, h) (try_candidates-empty aads h)
      | inr (e, shut) ↦ rw shut (try_candidates-empty aads h)
    ]

    -- Unwrapping and unlocking what was wrapped and sealed.
    unlock-sealed :
        (aads : List Text)
        → 0 < length plaintext
        → length plaintext + 28 < 2 ^ 32
        → has aad aads ≡ true
        → unlock aead key aads (wrap_png payload) ≡ ok plaintext
    unfolding unlock
    unlock-sealed aads h fits m = rw (
      unwrap_png-wrap_png payload (omega (arith, length-sealed aead key nonce plaintext aad n12)),
      try_candidates-sealed aads h m,
    )

    unlock-empty :
        (aads : List Text)
        → length plaintext ≡ 0
        → unlock aead key aads (wrap_png payload) ≡ err unlock_error
    unfolding unlock
    unlock-empty aads h = rw (
      unwrap_png-wrap_png payload (omega (arith, length-sealed aead key nonce plaintext aad n12)),
      try_candidates-empty aads h,
    )

  try_candidates-some :
      (raw key : List ℕ) (aads : List Text) (dec : List ℕ)
      → try_candidates aead raw key aads ≡ some dec
      → 0 < length dec
  unfolding try_candidates
  try_candidates-some raw key [] dec h = cc
  try_candidates-some raw key (b ∷ aads) dec h =
      elim (Result-cases (decrypt_chunk aead raw key b)) [
        | inl (d, opens) ↦
            let h' : (if length d == 0 then try_candidates aead raw key aads else some d)
                ≡ some dec =
              rw opens at h in
            ground (arith, h', try_candidates-some raw key aads dec)
        | inr (e, shut) ↦ try_candidates-some raw key aads dec (rw shut at h)
      ]

  -- What is unlocked is never empty, and the loop of `UnwrapPNG` never runs out of fuel.
  pub unlock_ok :
      (key : List ℕ) (aads : List Text) (enc : List ℕ)
      → ((dec : List ℕ) × (unlock aead key aads enc ≡ ok dec) × (0 < length dec))
        ⊎ (unlock aead key aads enc ≡ err unlock_error)
  unfolding unlock
  unlock_ok key aads enc =
      let (raw, unwraps, _) = unwrap_png_total enc in
      elim (Option-cases (try_candidates aead raw key aads)) [
        | inl shut ↦ inr (rw (unwraps, shut))
        | inr (dec, opens) ↦
            inl (dec, rw (unwraps, opens), try_candidates-some raw key aads dec opens)
      ]

pub own_candidate :
    (file_id : Text) (chunk : ChunkRecord) (origs : List ChunkRecord)
    → has (label file_id chunk.chunk_index) (candidates file_id chunk origs) ≡ true
unfolding candidates has
own_candidate file_id chunk origs = rw (bytes_eq_refl (label file_id chunk.chunk_index))

module _ {W : Type 0} (api : DiscordApi W) (aead : Aead) where
  -- What the two download attempts give for a part.
  abbrev pub downloaded : ChunkRecord → W → Store → Option (List ℕ) × W × Store
  downloaded chunk w s = fresh_download api chunk (first_download api chunk w) s

  unlock_download-got :
      (file_id : Text) (chunk : ChunkRecord) (key enc : List ℕ) (t : Option (List ℕ) × W × Store)
      → t.0 ≡ some enc
      → 0 < length enc
      → (unlock_download api aead file_id chunk key t).0
        ≡ unlock aead key (candidates file_id chunk (originals chunk t.2).0) enc
  unfolding unlock_download
  unlock_download-got file_id chunk key enc (none, w, s) e h = cc
  unlock_download-got file_id chunk key enc (some b, w, s) e h =
      let same : b ≡ enc = cc in
      let some_bytes : (length enc == 0) ≡ false = ground arith in rw (same, some_bytes)

  -- If the download attempts give the container of a part that was sealed under `aad` with a valid
  -- key, and `aad` is among the candidates, the part comes back, whatever other candidates are
  -- tried before, provided that it is not empty and fits the container.
  pub fetch_single_chunk-sealed :
      (file_id : Text) (chunk : ChunkRecord) (w : W) (s : Store) (key nonce plaintext aad : List ℕ)
      → (k : is_aes_key key ≡ true) → (n12 : length nonce ≡ nonce_size) → 0 < length plaintext
      → length plaintext + 28 < 2 ^ 32
      → (downloaded chunk w s).0 ≡ some (wrap_png (sealed aead key nonce plaintext aad n12))
      → has aad (candidates file_id chunk (originals chunk (downloaded chunk w s).2).0) ≡ true
      → (fetch_single_chunk api aead file_id chunk key w s).0 ≡ ok plaintext
  unfolding fetch_single_chunk
  fetch_single_chunk-sealed file_id chunk w s key nonce plaintext aad k n12 h fits got m =
      let payload : List ℕ = sealed aead key nonce plaintext aad n12 in
      unlock_download-got file_id chunk key (wrap_png payload) (downloaded chunk w s) got
        (omega (arith, length-wrap_png payload))
      ∙ unlock-sealed aead key nonce plaintext aad k n12
          (candidates file_id chunk (originals chunk (downloaded chunk w s).2).0) h fits m

  -- A part that was uploaded empty cannot be fetched: whenever the download attempts give its
  -- container, sealed with a valid key, the fetch with that key ends with the error of a wrong
  -- password, whatever the candidates are.
  pub fetch_single_chunk-empty :
      (file_id : Text) (chunk : ChunkRecord) (w : W) (s : Store) (key nonce aad : List ℕ)
      → (k : is_aes_key key ≡ true) → (n12 : length nonce ≡ nonce_size)
      → (downloaded chunk w s).0 ≡ some (wrap_png (sealed aead key nonce [] aad n12))
      → (fetch_single_chunk api aead file_id chunk key w s).0 ≡ err unlock_error
  unfolding fetch_single_chunk
  fetch_single_chunk-empty file_id chunk w s key nonce aad k n12 got =
      let payload : List ℕ = sealed aead key nonce [] aad n12 in
      unlock_download-got file_id chunk key (wrap_png payload) (downloaded chunk w s) got
        (omega (arith, length-wrap_png payload))
      ∙ unlock-empty aead key nonce [] aad k n12
          (candidates file_id chunk (originals chunk (downloaded chunk w s).2).0) refl

  -- The recorded link serves.
  pub downloaded_direct :
      (chunk : ChunkRecord) (w w1 : W) (s : Store) (enc : List ℕ)
      → bytes_eq chunk.attachment_url [] ≡ false
      → api.download_chunk chunk.attachment_url w ≡ (some enc, w1)
      → 0 < length enc
      → downloaded chunk w s ≡ (some enc, w1, s)
  unfolding first_download fresh_download is_good
  downloaded_direct chunk w w1 s enc url got h =
      let some_bytes : (length enc == 0) ≡ false = ground arith in rw (url, got, some_bytes)

  -- The recorded link has expired, and the message has a fresh one.
  downloaded_fresh :
      (chunk : ChunkRecord) (w w1 w2 w3 : W) (s : Store) (url : Text) (enc : List ℕ)
      → first_download api chunk w ≡ (none, w1)
      → bytes_eq chunk.channel_id [] ≡ false
      → bytes_eq chunk.message_id [] ≡ false
      → api.attachment_url chunk.channel_id chunk.message_id chunk.attachment_id w1 ≡ (some url, w2)
      → bytes_eq url [] ≡ false
      → api.download_chunk url w2 ≡ (some enc, w3)
      → 0 < length enc
      → (downloaded chunk w s).0 ≡ some enc
  unfolding fresh_download is_good by_fresh_link refreshed
  downloaded_fresh chunk w w1 w2 w3 s url enc dead ch msg link u got h =
      let some_bytes : (length enc == 0) ≡ false = ground arith in
      rw (dead, ch, msg, link, u, got, some_bytes)

  -- A part of the file's own upload, sealed under the file's id and its index with a valid key, not
  -- empty and not too long for the container, comes back through the recorded link, and through a
  -- fresh link of its message where the recorded one does not serve.
  pub fetch_single_chunk-own :
      (file_id : Text) (chunk : ChunkRecord) (w w1 w2 w3 : W) (s : Store)
      (key nonce plaintext url : List ℕ)
      → (k : is_aes_key key ≡ true) → (n12 : length nonce ≡ nonce_size) → 0 < length plaintext
      → length plaintext + 28 < 2 ^ 32
      → let stored =
          wrap_png (sealed aead key nonce plaintext (label file_id chunk.chunk_index) n12) in
        (bytes_eq chunk.attachment_url [] ≡ false)
            × (api.download_chunk chunk.attachment_url w ≡ (some stored, w1))
          ⊎ (first_download api chunk w ≡ (none, w1))
            × (bytes_eq chunk.channel_id [] ≡ false)
            × (bytes_eq chunk.message_id [] ≡ false)
            × (api.attachment_url chunk.channel_id chunk.message_id chunk.attachment_id w1
                ≡ (some url, w2))
            × (bytes_eq url [] ≡ false)
            × (api.download_chunk url w2 ≡ (some stored, w3))
        → (fetch_single_chunk api aead file_id chunk key w s).0 ≡ ok plaintext
  fetch_single_chunk-own file_id chunk w w1 w2 w3 s key nonce plaintext url k n12 h fits route =
      let aad : Text = label file_id chunk.chunk_index in
      let stored : List ℕ = wrap_png (sealed aead key nonce plaintext aad n12) in
      let long : 0 < length stored =
        omega (arith, length-wrap_png (sealed aead key nonce plaintext aad n12)) in
      let got : (downloaded chunk w s).0 ≡ some stored = elim route [
        | inl (u, served) ↦
            ap (λ (t : Option (List ℕ) × W × Store). t.0)
              (downloaded_direct chunk w w1 s stored u served long)
        | inr (dead, ch, msg, link, u, served) ↦
            downloaded_fresh chunk w w1 w2 w3 s url stored dead ch msg link u served long
      ] in
      fetch_single_chunk-sealed file_id chunk w s key nonce plaintext aad k n12 h fits got
        (own_candidate file_id chunk (originals chunk (downloaded chunk w s).2).0)
