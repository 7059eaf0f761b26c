-- ===== src/Aead/Toy.antt =====
-- A cipher for the tests that meets the laws of the interface: it appends a tag of the additional
-- data and hides nothing.
use discord_free_cloud.Base.{
  ℕ, ◌+◌, ◌-◌, ◌≡◌, List, [], ◌∷◌, ◌++◌, Option, some, none, length, take, drop, replicate, ltb,
  if◌then◌else◌, arith, length-append, length-replicate, length-take, bytes_eq, bytes_eq_refl,
  take-length-append, drop-length-append, false,
}
use discord_free_cloud.Aead.{Aead}

total : List ℕ → ℕ
total [] = 1
total (x ∷ xs) = x + total xs

tag : List ℕ → List ℕ
unfolding total
tag aad = replicate 16 (total aad)

length-tag : (a : List ℕ) → length (tag a) ≡ 16
unfolding tag
length-tag a = length-replicate 16 (total a)

unfoldable pub toy_unseal : (key nonce ciphertext aad : List ℕ) → Option (List ℕ)
unfolding tag bytes_eq
toy_unseal key nonce c aad =
    if ltb (length c) 16
    then none
    else if bytes_eq (drop (length c - 16) c) (tag aad)
    then some (take (length c - 16) c)
    else none

unfoldable pub toy_seal : (key nonce plaintext aad : List ℕ) → List ℕ
unfolding tag
toy_seal key nonce p aad = p ++ tag aad

-- What opening a sealed text gives.
toy_unseal-toy_seal :
    (k n p a b : List ℕ)
    → toy_unseal k n (toy_seal k n p a) b ≡ (if bytes_eq (tag a) (tag b) then some p else none)
toy_unseal-toy_seal k n p a b =
    let c : List ℕ = p ++ tag a in
    let whole : length c ≡ length p + 16 = omega (arith, length-append p (tag a), length-tag a) in
    let long : ltb (length c) 16 ≡ false = ground (arith, whole) in
    let body : length c - 16 ≡ length p = omega (arith, whole) in
    unfold toy_unseal toy_seal in
    rw (long, body, drop-length-append p (tag a), take-length-append p (tag a))

pub toy-length-seal : (k n p a : List ℕ) → length (toy_seal k n p a) ≡ length p + 16
unfolding toy_seal
toy-length-seal k n p a = omega (arith, length-append p (tag a), length-tag a)

pub toy-length-unseal :
    (k n c a p : List ℕ) → toy_unseal k n c a ≡ some p → length c ≡ length p + 16
unfolding toy_unseal
toy-length-unseal k n c a p h = ground (arith, length-take (length c - 16) c)

pub toy-unseal-seal : (k n p a : List ℕ) → toy_unseal k n (toy_seal k n p a) a ≡ some p
toy-unseal-seal k n p a = rw (toy_unseal-toy_seal, bytes_eq_refl (tag a))

pub toy-unseal_unique :
    (k n p a b q : List ℕ) → toy_unseal k n (toy_seal k n p a) b ≡ some q → q ≡ p
toy-unseal_unique k n p a b q h =
    let e : (if bytes_eq (tag a) (tag b) then some p else none) ≡ some q =
      rw toy_unseal-toy_seal at h in
    ground (arith, e)

abbrev pub toy : Aead
toy = record {
  seal = toy_seal;
  unseal = toy_unseal;
  length-seal = toy-length-seal;
  length-unseal = toy-length-unseal;
  unseal-seal = toy-unseal-seal;
  unseal_unique = toy-unseal_unique;
}
