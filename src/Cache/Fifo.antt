-- ===== src/Cache/Fifo.antt =====
-- internal/downloader/downloader.go: what the chunk cache returns, and how long it keeps a chunk.
use discord_free_cloud.Base.{
  ℕ, suc, ◌+◌, ◌-◌, ◌≤◌, ◌<◌, ◌≡◌, refl, ◌∙◌, List, [], ◌∷◌, ◌++◌, ◌&&◌, not, Bool, true, false,
  some, none, length, leb, ◌==◌, if◌then◌else◌, arith, Text, lookup, insert, has, has-append,
  lookup-insert, lookup-remove, bytes_eq, length-append, Bool-cases, Option-cases, inl, inr,
  bytes_eq_refl,
}
use discord_free_cloud.Cache.{Cache, get_cached_chunk, evict_oldest, make_room, put_cached_chunk}
use discord_free_cloud.Cache.Valid.{
  IsValid, present, put_cached_chunk-IsValid, HasRoom, make_room-HasRoom, has-make_room,
}

-- whether a key is the oldest of an order
abbrev pub is_oldest : Text → List Text → Bool
is_oldest k [] = false
is_oldest k (oldest ∷ rest) = bytes_eq oldest k

-- whether storing `key` evicts `k`: `key` is new, the cache is full, and `k` the oldest key
abbrev pub evicts : Cache → Text → Text → Bool
evicts c key k =
    not (present (lookup key c.entries)) && leb c.max_size (length c.order) && is_oldest k c.order

lookup-evict_oldest :
    (c : Cache) (ks : List Text) (k : Text)
    → lookup k (evict_oldest c ks).entries ≡ (if is_oldest k ks then none else lookup k c.entries)
unfolding evict_oldest
lookup-evict_oldest c [] k = refl
lookup-evict_oldest c (oldest ∷ rest) k = lookup-remove oldest k c.entries

lookup-make_room :
    (c : Cache) (k : Text)
    → lookup k (make_room c).entries ≡ (
        if leb c.max_size (length c.order) && is_oldest k c.order then none else lookup k c.entries)
unfolding make_room
lookup-make_room c k = elim (Bool-cases (leb c.max_size (length c.order))) [
  | inl full ↦ rw full (lookup-evict_oldest c c.order k)
  | inr free ↦ rw free
]

-- A chunk that was stored under a key is read back under it; every other key reads as before, but
-- for the oldest key where a new key was stored in a full cache, which is gone.
pub get_cached_chunk-put_cached_chunk :
    (c : Cache) (key k : Text) (bytes : List ℕ)
    → 0 < length bytes
    → get_cached_chunk (put_cached_chunk c key bytes) k ≡ (
        if bytes_eq key k
        then some bytes
        else if evicts c key k
        then none
        else get_cached_chunk c k)
unfolding get_cached_chunk put_cached_chunk
get_cached_chunk-put_cached_chunk c key k bytes h =
    let stored : (length bytes == 0) ≡ false = ground arith in
    elim (Option-cases (lookup key c.entries)) [
      | inr (old, found) ↦ rw (stored, found) (lookup-insert key k bytes c.entries)
      | inl missing ↦
          rw (stored, missing)
            (lookup-insert key k bytes (make_room c).entries ∙ rw (lookup-make_room c k))
    ]

pub put_all : Cache → List (Text × List ℕ) → Cache
put_all c [] = c
put_all c ((key, bytes) ∷ puts) = put_all (put_cached_chunk c key bytes) puts

put_all-IsValid : (c : Cache) (puts : List (Text × List ℕ)) → IsValid c → IsValid (put_all c puts)
unfolding put_all
put_all-IsValid c [] v = v
put_all-IsValid c ((key, bytes) ∷ puts) v =
    put_all-IsValid (put_cached_chunk c key bytes) puts (put_cached_chunk-IsValid c key bytes v)

-- how many keys are older
abbrev ahead : Text → List Text → ℕ
ahead k [] = 0
ahead k (j ∷ js) = if bytes_eq j k then 0 else suc (ahead k js)

ahead-append :
    (k j : Text) (ks : List Text) → has k ks ≡ true → ahead k (ks ++ (j ∷ [])) ≡ ahead k ks
unfolding has
ahead-append k j [] h = ground arith
ahead-append k j (i ∷ ks) h = ground (arith, ahead-append k j ks)

-- The key survives `n` stores of new keys.
record Survives (n : ℕ) (k : Text) (c : Cache) : Type 0 where
  held : has k c.order ≡ true
  slack : n ≤ ahead k c.order + (c.max_size - length c.order)

add-Survives :
    (n : ℕ) (k key : Text) (bytes : List ℕ) (c : Cache)
    → length c.order < c.max_size
    → Survives (suc n) k c
    → Survives n k
        (record c { order = c.order ++ (key ∷ []); entries = insert key bytes c.entries })
add-Survives n k key bytes c room s = record {
  held = rw (has-append k c.order (key ∷ []), s.held);
  slack =
      omega (arith, s.slack, ahead-append k key c.order s.held, length-append c.order (key ∷ []));
}

evict-Survives :
    (n : ℕ) (k : Text) (c : Cache) (ks : List Text)
    → c.order ≡ ks
    → c.max_size ≤ length ks
    → 0 < c.max_size
    → length ks ≤ c.max_size
    → Survives (suc n) k c
    → Survives (suc n) k (evict_oldest c ks)
      × (length (evict_oldest c ks).order < c.max_size)
      × ((evict_oldest c ks).max_size ≡ c.max_size)
unfolding evict_oldest has
evict-Survives n k c [] e full p b s = absurd (omega arith)
evict-Survives n k c (oldest ∷ rest) e full p b s =
    let held' : has k (oldest ∷ rest) ≡ true = rw e at s.held in
    let slack' : suc n ≤ ahead k (oldest ∷ rest) + (c.max_size - length (oldest ∷ rest)) =
      rw e at s.slack in
    (ground arith, omega arith, refl)

put-Survives :
    (n : ℕ) (k key : Text) (bytes : List ℕ) (c : Cache)
    → IsValid c
    → Survives (suc n) k c
    → Survives n k (put_cached_chunk c key bytes)
unfolding put_cached_chunk make_room
put-Survives n k key bytes c v s =
    let less : Survives n k c = record { held = s.held; slack = omega (arith, s.slack) } in
    elim (Bool-cases (length bytes == 0)) [
      | inl empty ↦ rw empty less
      | inr stored ↦ elim (Option-cases (lookup key c.entries)) [
        | inr (old, found) ↦ rw (stored, found) (record { held = s.held; slack = less.slack })
        | inl missing ↦ elim (Bool-cases (leb c.max_size (length c.order))) [
          | inr free ↦ rw (stored, missing, free) (add-Survives n k key bytes c (ground arith) s)
          | inl full ↦
              let (s', room, same) =
                evict-Survives n k c c.order refl (ground arith) v.positive v.bounded s in
              rw (stored, missing, full)
                (add-Survives n k key bytes (evict_oldest c c.order) (omega (arith, room, same)) s')
        ]
      ]
    ]

put_all-Survives :
    (k : Text) (puts : List (Text × List ℕ)) (c : Cache)
    → IsValid c
    → Survives (length puts) k c
    → Survives 0 k (put_all c puts)
unfolding put_all
put_all-Survives k [] c v s = s
put_all-Survives k ((key, bytes) ∷ puts) c v s =
    put_all-Survives k puts (put_cached_chunk c key bytes) (put_cached_chunk-IsValid c key bytes v)
      (put-Survives (length puts) k key bytes c v s)

ahead_new : (k : Text) (ks : List Text) → has k ks ≡ false → ahead k (ks ++ (k ∷ [])) ≡ length ks
unfolding has
ahead_new k [] h = rw (bytes_eq_refl k)
ahead_new k (j ∷ js) h = ground (arith, ahead_new k js)

max_size-evict_oldest : (c : Cache) (ks : List Text) → (evict_oldest c ks).max_size ≡ c.max_size
unfolding evict_oldest
max_size-evict_oldest c [] = refl
max_size-evict_oldest c (oldest ∷ rest) = refl

max_size-make_room : (c : Cache) → (make_room c).max_size ≡ c.max_size
unfolding make_room
max_size-make_room c = ground (arith, max_size-evict_oldest c c.order)

new-Survives :
    (n : ℕ) (c : Cache) (key : Text) (bytes : List ℕ)
    → IsValid c
    → 0 < length bytes
    → lookup key c.entries ≡ none
    → n < c.max_size
    → Survives n key (put_cached_chunk c key bytes)
unfolding put_cached_chunk
new-Survives n c key bytes v h missing few =
    let stored : (length bytes == 0) ≡ false = ground arith in
    let m : Cache = make_room c in
    let r : HasRoom m = make_room-HasRoom c v in
    let fresh : has key m.order ≡ false = has-make_room c key (ground (arith, v.mirror key)) in
    rw (stored, missing)
      (record {
        held =
            rw (has-append key m.order (key ∷ []), fresh)
              (unfold has in ground (arith, bytes_eq_refl key));
        slack = omega (
          arith,
          r.room,
          max_size-make_room c,
          ahead_new key m.order fresh,
          length-append m.order (key ∷ []),
        );
      })

-- In a valid cache a chunk stored under a new key is still cached after fewer than `max_size`
-- further stores, whatever their keys.
pub put_all-keeps :
    (c : Cache) (key : Text) (bytes : List ℕ) (puts : List (Text × List ℕ))
    → IsValid c
    → 0 < length bytes
    → get_cached_chunk c key ≡ none
    → length puts < c.max_size
    → present (get_cached_chunk (put_all (put_cached_chunk c key bytes) puts) key) ≡ true
unfolding get_cached_chunk
put_all-keeps c key bytes puts v h fresh few =
    let c1 : Cache = put_cached_chunk c key bytes in
    let v1 : IsValid c1 = put_cached_chunk-IsValid c key bytes v in
    let s : Survives (length puts) key c1 = new-Survives (length puts) c key bytes v h fresh few in
    (put_all-IsValid c1 puts v1).mirror key ∙ (put_all-Survives key puts c1 v1 s).held
