-- ===== src/Aead.antt =====
-- internal/crypto/crypto.go: `EncryptChunk` and `DecryptChunk` over AES-GCM. The cipher is that of
-- Go's crypto/aes and crypto/cipher and stands as an interface; the random nonce is an argument,
-- `none` where the random source fails.
pub mod RoundTrip
pub mod Toy
mod Tests
use discord_free_cloud.Base.{
  ℕ, ◌+◌, ◌≡◌, List, ◌++◌, Bool, ◌||◌, Option, some, none, Result, ok, err, length, take, drop, ltb,
  ◌==◌, if◌then◌else◌,
}

-- `cipher.AEAD` of a key: `Seal` without the destination that it appends to, and `Open`.
pub record Aead : Type 0 where
  pub seal : (key nonce plaintext aad : List ℕ) → List ℕ
  pub unseal : (key nonce ciphertext aad : List ℕ) → Option (List ℕ)
  -- A sealed text is longer by the tag.
  pub length-seal : (k n p a : List ℕ) → length (seal k n p a) ≡ length p + 16
  pub length-unseal : (k n c a p : List ℕ) → unseal k n c a ≡ some p → length c ≡ length p + 16
  pub unseal-seal : (k n p a : List ℕ) → unseal k n (seal k n p a) a ≡ some p
  -- The additional data decide whether a text opens, not what it opens to.
  pub unseal_unique : (k n p a b q : List ℕ) → unseal k n (seal k n p a) b ≡ some q → q ≡ p

pub data CryptoError : Type 0 where
  bad_key no_nonce invalid_payload decryption_failed : CryptoError

abbrev pub key_length : ℕ
key_length = 32

abbrev pub nonce_size : ℕ
nonce_size = 12

abbrev pub overhead : ℕ
overhead = 16

-- The key sizes that `aes.NewCipher` takes.
abbrev pub is_aes_key : List ℕ → Bool
is_aes_key key = length key == 16 || length key == 24 || length key == 32

-- the error check behind `gcm.Open`
abbrev pub opened : Option (List ℕ) → Result CryptoError (List ℕ)
opened none = err decryption_failed
opened (some plaintext) = ok plaintext

module _ (aead : Aead) where
  open aead use {seal, unseal}

  pub encrypt_chunk : Option (List ℕ) → List ℕ → List ℕ → List ℕ → Result CryptoError (List ℕ)
  encrypt_chunk random plaintext key aad =
      if is_aes_key key
      then (elim random [
        | none ↦ err no_nonce
        | some nonce ↦ ok (nonce ++ seal key nonce plaintext aad)
      ])
      else err bad_key

  pub decrypt_chunk : List ℕ → List ℕ → List ℕ → Result CryptoError (List ℕ)
  decrypt_chunk payload key aad =
      if is_aes_key key
      then if ltb (length payload) (nonce_size + overhead)
        then err invalid_payload
        else opened (unseal key (take nonce_size payload) (drop nonce_size payload) aad)
      else err bad_key
