-- ===== src/Cache/Valid.antt =====
-- internal/downloader/downloader.go: the invariant of the chunk cache.
use discord_free_cloud.Base.{
  ℕ, ◌≤◌, ◌<◌, ◌≡◌, refl, List, [], ◌∷◌, ◌++◌, Bool, true, false, Option, some, none, length, leb,
  ◌==◌, arith, Text, lookup, insert, remove, has, has-append, AllDistinct, lookup-insert,
  lookup-remove, bytes_eq, bytes_eq_iff, length-append, Bool-cases, Option-cases, inl, inr,
}
use discord_free_cloud.Cache.{
  Cache, new_cache, get_cached_chunk, evict_oldest, make_room, put_cached_chunk,
}

abbrev pub present {ℓ} : {A : Type ℓ} → Option A → Bool
present none = false
present (some a) = true

-- The map and the order hold the same keys, each once, and no more than fit.
pub record IsValid (c : Cache) : Type 0 where
  pub mirror : (k : Text) → present (lookup k c.entries) ≡ has k c.order
  pub distinct : AllDistinct c.order
  pub bounded : length c.order ≤ c.max_size
  pub positive : 0 < c.max_size

pub new_cache-IsValid : IsValid new_cache
unfolding new_cache lookup has
new_cache-IsValid = record {
  mirror = λ k. refl;
  distinct = tt;
  bounded = omega arith;
  positive = omega arith;
}

AllDistinct-append :
    (ks : List Text) (k : Text) → AllDistinct ks → has k ks ≡ false → AllDistinct (ks ++ (k ∷ []))
unfolding has
AllDistinct-append [] k d h = (refl, tt)
AllDistinct-append (j ∷ js) k d h = (
  ground (arith, has-append j js (k ∷ []), bytes_eq_iff j k, bytes_eq_iff k j),
  AllDistinct-append js k d.1 (ground arith),
)

-- A cache in which one more key has room.
pub record HasRoom (c : Cache) : Type 0 where
  pub valid : IsValid c
  pub room : length c.order < c.max_size

evict_mirror :
    (c : Cache) (oldest : Text) (rest : List Text) (k : Text)
    → has oldest rest ≡ false
    → present (lookup k c.entries) ≡ has k (oldest ∷ rest)
    → present (lookup k (remove oldest c.entries)) ≡ has k rest
unfolding has
evict_mirror c oldest rest k once m = elim (Bool-cases (bytes_eq oldest k)) [
  | inl same ↦
      let e : oldest ≡ k = (bytes_eq_iff oldest k).0 same in
      let gone : has k rest ≡ false = rw (← e) once in
      rw (lookup-remove oldest k c.entries, same, gone)
  | inr other ↦ rw (lookup-remove oldest k c.entries, other) (rw other at m)
]

evict_oldest-HasRoom :
    (c : Cache) (ks : List Text) → c.order ≡ ks → IsValid c → HasRoom (evict_oldest c ks)
unfolding evict_oldest
evict_oldest-HasRoom c [] e v =
    let empty : length c.order ≡ 0 = rw e in record { valid = v; room = omega (arith, v.positive) }
evict_oldest-HasRoom c (oldest ∷ rest) e v =
    let d : AllDistinct (oldest ∷ rest) = rw e at v.distinct in
    let b : length (oldest ∷ rest) ≤ c.max_size = rw e at v.bounded in
    record {
      valid = record {
        mirror = λ k. evict_mirror c oldest rest k d.0 (rw e at (v.mirror k));
        distinct = d.1;
        bounded = omega arith;
        positive = v.positive;
      };
      room = omega arith;
    }

pub make_room-HasRoom : (c : Cache) → IsValid c → HasRoom (make_room c)
unfolding make_room
make_room-HasRoom c v = elim (Bool-cases (leb c.max_size (length c.order))) [
  | inl full ↦ rw full (evict_oldest-HasRoom c c.order refl v)
  | inr free ↦ rw free (record { valid = v; room = ground arith })
]

has-evict_oldest :
    (c : Cache) (ks : List Text) (k : Text)
    → c.order ≡ ks
    → has k ks ≡ false
    → has k (evict_oldest c ks).order ≡ false
unfolding evict_oldest has
has-evict_oldest c [] k e h = rw e
has-evict_oldest c (oldest ∷ rest) k e h = ground arith

pub has-make_room :
    (c : Cache) (k : Text) → has k c.order ≡ false → has k (make_room c).order ≡ false
unfolding make_room
has-make_room c k h = elim (Bool-cases (leb c.max_size (length c.order))) [
  | inl full ↦ rw full (has-evict_oldest c c.order k refl h)
  | inr free ↦ rw free h
]

add_mirror :
    (c : Cache) (key : Text) (bytes : List ℕ) (k : Text)
    → present (lookup k c.entries) ≡ has k c.order
    → present (lookup k (insert key bytes c.entries)) ≡ has k (c.order ++ (key ∷ []))
unfolding has
add_mirror c key bytes k m =
    rw (lookup-insert key k bytes c.entries, has-append k c.order (key ∷ []))
      (elim (Bool-cases (bytes_eq key k)) [
        | inl same ↦ rw same (ground arith)
        | inr other ↦ rw other (ground (arith, m))
      ])

set_mirror :
    (c : Cache) (key : Text) (bytes old : List ℕ) (k : Text)
    → lookup key c.entries ≡ some old
    → present (lookup k c.entries) ≡ has k c.order
    → present (lookup k (insert key bytes c.entries)) ≡ has k c.order
set_mirror c key bytes old k found m =
    rw (lookup-insert key k bytes c.entries) (elim (Bool-cases (bytes_eq key k)) [
      | inl same ↦
          let e : key ≡ k = (bytes_eq_iff key k).0 same in
          let here : lookup k c.entries ≡ some old = rw (← e) found in rw same (rw here at m)
      | inr other ↦ rw other m
    ])

-- Storing a chunk keeps the invariant: the cache never holds more than `max_size` chunks, and
-- never a key without its place in the order.
pub put_cached_chunk-IsValid :
    (c : Cache) (key : Text) (bytes : List ℕ) → IsValid c → IsValid (put_cached_chunk c key bytes)
unfolding put_cached_chunk
put_cached_chunk-IsValid c key bytes v = elim (Bool-cases (length bytes == 0)) [
  | inl empty ↦ rw empty v
  | inr stored ↦ elim (Option-cases (lookup key c.entries)) [
    | inr (old, found) ↦
        rw (stored, found)
          (record {
            mirror = λ k. set_mirror c key bytes old k found (v.mirror k);
            distinct = v.distinct;
            bounded = v.bounded;
            positive = v.positive;
          })
    | inl missing ↦
        let r : HasRoom (make_room c) = make_room-HasRoom c v in
        let fresh : has key (make_room c).order ≡ false =
          has-make_room c key (ground (arith, v.mirror key)) in
        rw (stored, missing)
          (record {
            mirror = λ k. add_mirror (make_room c) key bytes k (r.valid.mirror k);
            distinct = AllDistinct-append (make_room c).order key r.valid.distinct fresh;
            bounded = omega (arith, r.room, length-append (make_room c).order (key ∷ []));
            positive = r.valid.positive;
          })
  ]
]

pub get_cached_chunk-new_cache : (key : Text) → get_cached_chunk new_cache key ≡ none
unfolding new_cache get_cached_chunk lookup
get_cached_chunk-new_cache key = refl
