-- ===== src/Discord/Filling.antt =====
-- internal/discord/pool.go: how many channels the loop of `SyncPool` makes, and where it puts them.
use discord_free_cloud.Base.{
  and_on-ok, and_on-cong, ℕ, zero, suc, ◌+◌, ◌-◌, ◌≤◌, List, [], ◌∷◌, ◌++◌, Bool, true, false,
  Option, some, Result, ok, err, ltb, arith, ◌≡◌, refl, sym, ◌∙◌, ◌⊎◌, inl, inr, Bool-cases, ltb→lt,
  ◌<◌, lookup, insert, lookup-insert, bytes_eq, if◌then◌else◌, Option-cases, Text,
}
use discord_free_cloud.Discord.{Web, WebError}
use discord_free_cloud.Discord.Categories.{ManagedCategory}
use discord_free_cloud.Discord.Provision.{ProvisionItem}
use discord_free_cloud.Discord.Growth.{
  Growth, max_channels_per_category, first_open, count_up, places, total_count, with_category,
  grown, open_category, make_one, make_round, grow, after_open, after_make,
}

abbrev pub AllWithin : List ManagedCategory → Type 0
AllWithin [] = Unit {0}
AllWithin (c ∷ rest) = (c.count ≤ max_channels_per_category) × AllWithin rest

-- The categories keep their places and ids; one that has got channels is within the limit, and so is
-- each fresh one, which stands behind them.
abbrev pub Extends : List ManagedCategory → List ManagedCategory → Type 0
Extends [] ds = AllWithin ds
Extends (c ∷ cs) [] = ⊥
Extends (c ∷ cs) (d ∷ ds) =
    ((c.id ≡ d.id)
      × (((d.count ≡ c.count) ⊎ (d.count ≤ max_channels_per_category)) × (c.count ≤ d.count)))
    × Extends cs ds

Extends-refl : (cs : List ManagedCategory) → Extends cs cs
Extends-refl [] = tt
Extends-refl (c ∷ cs) = ((refl, (inl refl, omega arith)), Extends-refl cs)

Extends-AllWithin : (cs ds : List ManagedCategory) → Extends cs ds → AllWithin cs → AllWithin ds
Extends-AllWithin [] ds h within = h
Extends-AllWithin (c ∷ cs) [] h within = absurd h
Extends-AllWithin (c ∷ cs) (d ∷ ds) ((same, (inl e, le)), h) (a, within) =
    (omega arith, Extends-AllWithin cs ds h within)
Extends-AllWithin (c ∷ cs) (d ∷ ds) ((same, (inr e, le)), h) (a, within) =
    (e, Extends-AllWithin cs ds h within)

joined :
    (d c e : ℕ)
    → (d ≡ c) ⊎ (d ≤ max_channels_per_category)
    → (e ≡ d) ⊎ (e ≤ max_channels_per_category)
    → d ≤ e
    → (e ≡ c) ⊎ (e ≤ max_channels_per_category)
joined d c e (inl p) (inl q) n = inl (q ∙ p)
joined d c e (inr p) (inl q) n = inr (omega arith)
joined d c e p (inr q) n = inr q

Extends-trans : (cs ds es : List ManagedCategory) → Extends cs ds → Extends ds es → Extends cs es
Extends-trans [] ds es h k = Extends-AllWithin ds es k h
Extends-trans (c ∷ cs) [] es h k = absurd h
Extends-trans (c ∷ cs) (d ∷ ds) [] h k = absurd k
Extends-trans (c ∷ cs) (d ∷ ds) (e ∷ es) ((a, (p, m)), h) ((b, (q, n)), k) =
    ((a ∙ b, (joined d.count c.count e.count p q n, omega arith)), Extends-trans cs ds es h k)

-- counting up the first category with room
first_open-Extends :
    (cs : List ManagedCategory) (i : ℕ)
    → first_open cs ≡ some i
    → Extends cs (count_up i cs) × (total_count (count_up i cs) ≡ total_count cs + 1)
unfolding first_open count_up total_count
first_open-Extends [] i h = absurd (ground arith)
first_open-Extends (c ∷ cs) zero h =
    (((refl, (inr ground arith, omega arith)), Extends-refl cs), omega arith)
first_open-Extends (c ∷ cs) (suc i) h =
    let rest : Extends cs (count_up i cs) × (total_count (count_up i cs) ≡ total_count cs + 1) =
      first_open-Extends cs i (ground arith) in
    (((refl, (inl refl, omega arith)), rest.0), omega (arith, rest.1))

-- opening a category and counting it up
with_category-Extends :
    (cs : List ManagedCategory) (fresh : ManagedCategory)
    → fresh.count ≡ 0
    → let ds = count_up (places cs) (cs ++ (fresh ∷ [])) in
      Extends cs ds × (total_count ds ≡ total_count cs + 1)
unfolding places count_up total_count
with_category-Extends [] fresh h = ((omega arith, tt), omega arith)
with_category-Extends (c ∷ cs) fresh h =
    let rest = with_category-Extends cs fresh h in
    (((refl, (inl refl, omega arith)), rest.0), omega (arith, rest.1))

some-inj {ℓ} : {A : Type ℓ} {a b : A} → Path (Option A) (some a) (some b) → a ≡ b
some-inj e = grind arith

-- each channel that was made stands under its own id
abbrev pub Keyed : List (Text × ProvisionItem) → Type 0
Keyed made =
    (k : Text) (item : ProvisionItem)
    → lookup k made ≡ some item
    → bytes_eq item.channel.id k ≡ true

picked {ℓ} :
    {A : Type ℓ} (b : Bool) (x r : A) (o : Option A)
    → (if b then some x else o) ≡ some r
    → ((b ≡ true) × (x ≡ r)) ⊎ (o ≡ some r)
picked true x r o h = inl (refl, some-inj h)
picked false x r o h = inr h

insert-Keyed :
    (item : ProvisionItem) (made : List (Text × ProvisionItem))
    → Keyed made
    → Keyed (insert item.channel.id item made)
insert-Keyed item made keyed k it found =
    elim (picked (bytes_eq item.channel.id k) item it (lookup k made)
      (sym (lookup-insert item.channel.id k item made) ∙ found)) [
        | inl (e, same) ↦ rw (← same) e
        | inr h ↦ keyed k it h
      ]

-- what a number of rounds does
abbrev pub Filled : ℕ → Growth → Growth → Type 0
Filled k g h =
    ((h.storage_count ≡ g.storage_count + k) × (total_count h.cats ≡ total_count g.cats + k))
    × ((h.seq ≡ g.seq + k) × (Extends g.cats h.cats × (Keyed g.made → Keyed h.made)))

Filled-refl : (g : Growth) → Filled 0 g g
Filled-refl g = ((omega arith, omega arith), (omega arith, (Extends-refl g.cats, λ keyed. keyed)))

Filled-trans : (j k : ℕ) (f g h : Growth) → Filled j f g → Filled k g h → Filled (j + k) f h
Filled-trans j k f g h ((a, b), (c, (d, e))) ((a', b'), (c', (d', e'))) = (
  (omega arith, omega arith),
  (omega arith, (Extends-trans f.cats g.cats h.cats d d', λ keyed. e' (e keyed))),
)

-- the state in which a channel is made at a place
abbrev Opens : Growth → ℕ × Growth → Type 0
Opens g (i, h) = (item : ProvisionItem) → Filled 1 g (grown i item h)

pub ok-inj {ℓ} : {A : Type ℓ} {a b : A} → Path (Result WebError A) (ok a) (ok b) → a ≡ b
ok-inj e = grind arith

module _ {W : Type 0} where
  after_open-Opens :
      (name : Text) (g : Growth) (r : Result WebError Text × W) (p : ℕ × Growth)
      → (after_open name g r).0 ≡ ok p
      → Opens g p
  unfolding after_open with_category grown
  after_open-Opens name g (err e, w) p h = absurd (ground arith)
  after_open-Opens name g (ok id, w) p h = rw (← (ok-inj h)) (λ item.
      let made =
        with_category-Extends g.cats
          (record { id = id; name = name; order = g.next_order + 1; count = 0 }) refl in
      ((refl, made.1), (refl, (made.0, insert-Keyed item g.made))))

  after_make-Filled :
      (pause : W → W) (i : ℕ) (f g h : Growth) (r : Result WebError ProvisionItem × W)
      → Opens f (i, g)
      → (after_make pause i g r).0 ≡ ok h
      → Filled 1 f h
  unfolding after_make
  after_make-Filled pause i f g h (err e, w) o k = absurd (ground arith)
  after_make-Filled pause i f g h (ok item, w) o k = rw (← (ok-inj k)) (o item)

module _ {W : Type 0} (web : Web W) (bot guild : Text) where
  open_category-Opens :
      (g : Growth) (w : W) (p : ℕ × Growth) → (open_category web bot guild g w).0 ≡ ok p → Opens g p
  unfolding open_category grown
  open_category-Opens g w p = elim (Option-cases (first_open g.cats)) [
    | inl e ↦ rw (e, open_category) (λ h. after_open-Opens _ g _ p h)
    | inr (i, e) ↦
        rw (e, open_category)
          (λ h. rw (← (ok-inj h)) (λ item.
            let up = first_open-Extends g.cats i e in
            ((refl, up.1), (refl, (up.0, insert-Keyed item g.made)))))
  ]

  make_one-Filled :
      (g h : Growth) (r : Result WebError (ℕ × Growth) × W)
      → ((p : ℕ × Growth) → r.0 ≡ ok p → Opens g p)
      → (make_one web bot guild r).0 ≡ ok h
      → Filled 1 g h
  unfolding make_one
  make_one-Filled g h (err e, w) o k = absurd (ground arith)
  make_one-Filled g h (ok (i, f), w) o k = after_make-Filled _ i g f h _ (o (i, f) refl) k

  make_round-Filled :
      (g h : Growth) (w : W) → (make_round web bot guild g w).0 ≡ ok h → Filled 1 g h
  unfolding make_round
  make_round-Filled g h w e =
      make_one-Filled g h (open_category web bot guild g w) (open_category-Opens g w) e

  pub grow-Filled :
      (fuel desired : ℕ) (g h : Growth) (w : W)
      → desired ≤ g.storage_count + fuel
      → (grow web bot guild fuel desired g w).0 ≡ ok h
      → Filled (desired - g.storage_count) g h
  unfolding grow
  grow-Filled zero desired g h w enough =
      let none_left : desired - g.storage_count ≡ 0 = omega arith in
      rw none_left (λ e. rw (← (ok-inj e)) (Filled-refl g))
  grow-Filled (suc fuel) desired g h w enough = elim (Bool-cases (ltb g.storage_count desired)) [
    | inl e ↦
        rw (e, grow)
          (λ k.
            let less : g.storage_count < desired = ltb→lt g.storage_count desired e in
            let (g1, (first, rest)) =
              and_on-ok (grow web bot guild fuel desired) (make_round web bot guild g w) h k in
            let one = make_round-Filled g g1 w first in
            let more =
              grow-Filled fuel desired g1 h (make_round web bot guild g w).1
                (omega (arith, one.0.0)) rest in
            let count : 1 + (desired - g1.storage_count) ≡ desired - g.storage_count =
              omega (arith, one.0.0) in
            rw (← count) (Filled-trans 1 (desired - g1.storage_count) g g1 h one more))
    | inr e ↦
        rw (e, grow)
          (λ k.
            let none_left : desired - g.storage_count ≡ 0 = ground arith in
            rw (none_left, ← (ok-inj k)) (Filled-refl g))
  ]

  -- More fuel than the channels that are missing changes nothing: the loop ends with its test, or with an
  -- error, before the fuel does.
  pub grow_enough :
      (fuel extra desired : ℕ) (g : Growth) (w : W)
      → desired ≤ g.storage_count + fuel
      → grow web bot guild (fuel + extra) desired g w ≡ grow web bot guild fuel desired g w
  unfolding grow
  grow_enough zero zero desired g w enough = refl
  grow_enough zero (suc extra) desired g w enough =
      let same : 0 + suc extra ≡ suc extra = omega arith in
      let full : ltb g.storage_count desired ≡ false = ground arith in
      rw same (rw (full, grow) refl)
  grow_enough (suc fuel) extra desired g w enough =
      let same : suc fuel + extra ≡ suc (fuel + extra) = omega arith in
      rw same (elim (Bool-cases (ltb g.storage_count desired)) [
        | inl e ↦
            let less : g.storage_count < desired = ltb→lt g.storage_count desired e in
            rw (e, grow)
              (and_on-cong (grow web bot guild (fuel + extra) desired)
                (grow web bot guild fuel desired) (make_round web bot guild g w)
                (λ g1 made.
                  grow_enough fuel extra desired g1 (make_round web bot guild g w).1
                    (omega (arith, (make_round-Filled g g1 w made).0.0))))
        | inr e ↦ rw (e, grow) refl
      ])
