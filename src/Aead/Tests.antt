-- ===== src/Aead/Tests.antt =====
-- internal/crypto/crypto.go at concrete inputs, with the cipher of the tests.
use discord_free_cloud.Base.{
  ℕ, ◌+◌, ◌≡◌, refl, List, [], ◌∷◌, some, ok, length, replicate, arith, true,
}
use discord_free_cloud.Aead.{is_aes_key, encrypt_chunk, decrypt_chunk}
use discord_free_cloud.Aead.Toy.{toy}
use discord_free_cloud.Aead.RoundTrip.{transport, decrypt_chunk_takes}
use discord_free_cloud.Png.{wrap_png, unwrap_png}

abbrev key : List ℕ
key = replicate 32 7

abbrev nonce : List ℕ
nonce = replicate 12 1

transport_example :
    (payload : List ℕ) × (encrypt_chunk toy (some nonce) (5 ∷ 6 ∷ []) key (9 ∷ []) ≡ ok payload)
    × (unwrap_png (wrap_png payload) ≡ some payload)
    × (decrypt_chunk toy payload key (9 ∷ []) ≡ ok (5 ∷ 6 ∷ []))
transport_example = transport toy key nonce (5 ∷ 6 ∷ []) (9 ∷ []) refl refl (omega arith)

decrypt_chunk_takes_example : (is_aes_key key ≡ true) × (length transport_example.0 ≡ 2 + 28)
decrypt_chunk_takes_example =
    decrypt_chunk_takes toy transport_example.0 key (9 ∷ []) (5 ∷ 6 ∷ []) transport_example.3
