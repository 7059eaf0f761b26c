-- ===== src/Aead/RoundTrip.antt =====
-- internal/crypto/crypto.go: a chunk that was encrypted decrypts, also through a PNG container.
use discord_free_cloud.Base.{
  ℕ, ◌+◌, ◌^◌, ◌<◌, ◌≡◌, List, ◌++◌, Option, some, none, ok, length, take, drop, ltb, arith,
  length-append, take-length-append, drop-length-append, true, Option-cases, inl, inr, length-drop,
  false, sym, ◌∙◌,
}
use discord_free_cloud.Aead.{Aead, is_aes_key, encrypt_chunk, decrypt_chunk, nonce_size, opened}
use discord_free_cloud.Png.{wrap_png, unwrap_png}
use discord_free_cloud.Png.RoundTrip.{unwrap_png-wrap_png}

opened-eq-ok : (o : Option (List ℕ)) (q : List ℕ) → opened o ≡ ok q → o ≡ some q
opened-eq-ok none q h = cc
opened-eq-ok (some p) q h = cc

module _ (aead : Aead) where
  open aead use {seal, unseal, length-seal, length-unseal, unseal-seal, unseal_unique}

  take-nonce : (nonce c : List ℕ) → length nonce ≡ nonce_size → take nonce_size (nonce ++ c) ≡ nonce
  take-nonce nonce c h = rw (← h) (take-length-append nonce c)

  drop-nonce : (nonce c : List ℕ) → length nonce ≡ nonce_size → drop nonce_size (nonce ++ c) ≡ c
  drop-nonce nonce c h = rw (← h) (drop-length-append nonce c)

  module _ (key nonce plaintext aad : List ℕ) (n12 : length nonce ≡ nonce_size) where
    abbrev pub sealed : List ℕ
    sealed = nonce ++ seal key nonce plaintext aad

    pub length-sealed : length sealed ≡ length plaintext + 28
    length-sealed = omega (
      arith,
      length-append nonce (seal key nonce plaintext aad),
      length-seal key nonce plaintext aad,
    )

    -- What decryption does with a sealed chunk, under any additional data.
    pub decrypt_chunk-sealed :
        (other : List ℕ)
        → is_aes_key key ≡ true
        → decrypt_chunk aead sealed key other
          ≡ opened (unseal key nonce (seal key nonce plaintext aad) other)
    unfolding decrypt_chunk
    decrypt_chunk-sealed other k =
        let long : ltb (length sealed) 28 ≡ false = ground (arith, length-sealed) in
        rw (k, long, take-nonce nonce _ n12, drop-nonce nonce _ n12)

    -- Encryption under an AES key succeeds; the result is longer by nonce and tag, and decrypts
    -- under the same key and additional data to the plaintext.
    pub decrypt_chunk-encrypt_chunk :
        is_aes_key key ≡ true
        → (payload : List ℕ) × (encrypt_chunk aead (some nonce) plaintext key aad ≡ ok payload)
          × (length payload ≡ length plaintext + 28)
          × (decrypt_chunk aead payload key aad ≡ ok plaintext)
    unfolding encrypt_chunk
    decrypt_chunk-encrypt_chunk k = (
      sealed,
      rw k,
      length-sealed,
      rw (decrypt_chunk-sealed aad k, unseal-seal key nonce plaintext aad),
    )

    -- Under its own additional data a sealed chunk opens.
    pub decrypt_chunk_self :
        is_aes_key key ≡ true → decrypt_chunk aead sealed key aad ≡ ok plaintext
    decrypt_chunk_self k = rw (decrypt_chunk-sealed aad k, unseal-seal key nonce plaintext aad)

    -- A sealed chunk opens under other additional data to the plaintext, or not at all.
    pub decrypt_chunk-other :
        (other q : List ℕ)
        → is_aes_key key ≡ true
        → decrypt_chunk aead sealed key other ≡ ok q
        → q ≡ plaintext
    decrypt_chunk-other other q k h =
        unseal_unique key nonce plaintext aad other q
          (opened-eq-ok _ q (sym (decrypt_chunk-sealed other k) ∙ h))

  -- A part that was encrypted and wrapped in a PNG container comes back by unwrapping and
  -- decrypting, for every plaintext that the container can hold.
  pub transport :
      (key nonce plaintext aad : List ℕ)
      → is_aes_key key ≡ true
      → length nonce ≡ nonce_size
      → length plaintext + 28 < 2 ^ 32
      → (payload : List ℕ) × (encrypt_chunk aead (some nonce) plaintext key aad ≡ ok payload)
        × (unwrap_png (wrap_png payload) ≡ some payload)
        × (decrypt_chunk aead payload key aad ≡ ok plaintext)
  transport key nonce plaintext aad k n12 fits =
      let (payload, sealed, len, back) =
        decrypt_chunk-encrypt_chunk key nonce plaintext aad n12 k in
      (payload, sealed, unwrap_png-wrap_png payload (omega arith), back)

  -- A successful decryption takes nonce and tag off: it needs an AES key and a payload that is
  -- longer than the plaintext by twenty-eight bytes.
  pub decrypt_chunk_takes :
      (payload key aad p : List ℕ)
      → decrypt_chunk aead payload key aad ≡ ok p
      → (is_aes_key key ≡ true) × (length payload ≡ length p + 28)
  unfolding decrypt_chunk
  decrypt_chunk_takes payload key aad p h =
      elim (Option-cases (unseal key (take 12 payload) (drop 12 payload) aad)) [
        | inl e ↦ absurd (ground (arith, e))
        | inr (q, e) ↦ ground (
          arith,
          e,
          length-drop 12 payload,
          length-unseal key (take 12 payload) (drop 12 payload) aad q e,
        )
      ]
