-- ===== src/Discord/Created.antt =====
-- internal/discord/pool.go: the channels that the loop of `SyncPool` has Discord make.
use discord_free_cloud.Base.{
  dec, codes, ◌++◌, Bool, bytes_eq_iff, and_on-ok, ℕ, zero, suc, ◌+◌, ◌-◌, ◌*◌, ◌≤◌, ◌<◌, List, [],
  ◌∷◌, true, false, Result, ok, err, ltb, arith, ◌≡◌, refl, ap, ◌⊎◌, inl, inr, Bool-cases, ltb→lt,
  ◌||◌, length, insert, has, map, bytes_eq, bytes_eq_refl, and_on, Option-cases, Text,
}
use discord_free_cloud.Discord.{Web, WebError, millisecond}
use discord_free_cloud.Discord.Provision.{ProvisionItem, create_channel, find_or_create_category}
use discord_free_cloud.Discord.Filling.{ok-inj}
use discord_free_cloud.Discord.Growth.{
  with_category, Growth, first_open, first_name, grown, open_category, make_one, make_round, grow,
  after_open, after_make,
}

abbrev pub made_ids : List (Text × ProvisionItem) → List Text
made_ids made = map (λ entry. entry.0) made

-- the channels of the items are among those that the loop has noted
abbrev pub AllNoted : List ProvisionItem → List (Text × ProvisionItem) → Type 0
AllNoted [] made = Unit {0}
AllNoted (item ∷ items) made = (has item.channel.id (made_ids made) ≡ true) × AllNoted items made

-- every channel that is noted stays so
abbrev Keeps : Growth → Growth → Type 0
Keeps g h = (k : Text) → has k (made_ids g.made) ≡ true → has k (made_ids h.made) ≡ true

pub or_true : (b : Bool) → (b || true) ≡ true
or_true true = refl
or_true false = refl

and_on_done :
    {A B W : Type 0} (f : A → W → Result WebError B × W) (r : Result WebError A × W) (a : A)
    → r.0 ≡ ok a
    → and_on f r ≡ f a r.1
unfolding and_on
and_on_done f (ok b, w) a h = ap (λ c. f c w) (ok-inj h)
and_on_done f (err e, w) a h = absurd (cc)

module _ {W : Type 0} (web : Web W) (bot guild : Text) where
  -- the look for a category, or none
  abbrev pub Looks : W → W → Type 0
  Looks w before =
      (before ≡ w) ⊎ ((name : Text) × (before ≡ (find_or_create_category web bot guild name w).1))

  -- Channels that Discord makes one after the other, from a world to another: each by a call of
  -- `CreateChannel` that succeeds, behind the look for its category or none, and before a pause.
  pub data Creates (last : W) : W → List ProvisionItem → Type 0 where
    done : Creates last last []
    create :
        (w before next : W) (category name topic : Text) (item : ProvisionItem)
        (items : List ProvisionItem)
        → Looks w before
        → create_channel web bot guild category name topic before ≡ (ok item, next)
        → Creates last (web.sleep (150 * millisecond) next) items
        → Creates last w (item ∷ items)

  -- what a round does: one channel, which is noted
  abbrev Round : Growth → W → Growth → W → Type 0
  Round g w h after =
      (item : ProvisionItem) × (((last : W) (items : List ProvisionItem)
          → Creates last after items
          → Creates last w (item ∷ items))
        × ((has item.channel.id (made_ids h.made) ≡ true)
            × (Keeps g h × (h.storage_count ≡ g.storage_count + 1))))

  has-insert :
      (k id : Text) (item : ProvisionItem) (made : List (Text × ProvisionItem))
      → has k (made_ids (insert id item made)) ≡ (bytes_eq id k || has k (made_ids made))
  unfolding insert has
  has-insert k id item [] = refl
  has-insert k id item ((other, it) ∷ made) = ground (
    arith,
    has-insert k id item made,
    bytes_eq_iff other id,
    bytes_eq_iff other k,
    bytes_eq_iff id k,
  )

  -- what the opening of a category leaves
  abbrev Opened : Growth → W → Result WebError (ℕ × Growth) × W → Type 0
  Opened g w (err e, before) = Unit {0}
  Opened g w (ok (i, h), before) =
      Looks w before × ((h.made ≡ g.made) × (h.storage_count ≡ g.storage_count))

  after_open-Opened :
      (name : Text) (g : Growth) (w : W) (q : Result WebError Text × W)
      → Looks w q.1
      → Opened g w (after_open name g q)
  unfolding after_open with_category
  after_open-Opened name g w (err e, before) looks = tt
  after_open-Opened name g w (ok id, before) looks = (looks, (refl, refl))

  open_category-Opened : (g : Growth) (w : W) → Opened g w (open_category web bot guild g w)
  unfolding open_category
  open_category-Opened g w = elim (Option-cases (first_open g.cats)) [
    | inl e ↦
        let name = first_name g.cats ++ (codes " " ++ dec (g.next_order + 1)) in
        rw (e, open_category)
          (after_open-Opened name g w (find_or_create_category web bot guild name w)
            (inr (name, refl)))
    | inr (i, e) ↦ rw (e, open_category) (inl refl, (refl, refl))
  ]

  after_make-Round :
      (g g0 h : Growth) (w before : W) (i : ℕ) (category name topic : Text)
      (q : Result WebError ProvisionItem × W)
      → Opened g w (ok (i, g0), before)
      → create_channel web bot guild category name topic before ≡ q
      → (after_make (web.sleep (150 * millisecond)) i g0 q).0 ≡ ok h
      → Round g w h (after_make (web.sleep (150 * millisecond)) i g0 q).1
  unfolding after_make grown has
  after_make-Round g g0 h w before i category name topic (err e, next) opened made k = absurd (cc)
  after_make-Round g g0 h w before i category name topic (ok item, next) (looks, (same, count)) made
        k =
      rw (← (ok-inj k)) (
        item,
        (
          λ last items rest. create w before next category name topic item items looks made rest,
          (
            rw (has-insert item.channel.id item.channel.id item g0.made)
                (rw (bytes_eq_refl item.channel.id) refl),
            (
              λ j noted.
                  rw (has-insert j item.channel.id item g0.made, same, noted)
                    (or_true (bytes_eq item.channel.id j)),
              omega (arith, count),
            ),
          ),
        ),
      )

  make_one-Round :
      (g h : Growth) (w : W) (r : Result WebError (ℕ × Growth) × W)
      → Opened g w r
      → (make_one web bot guild r).0 ≡ ok h
      → Round g w h (make_one web bot guild r).1
  unfolding make_one
  make_one-Round g h w (err e, before) opened k = absurd (cc)
  make_one-Round g h w (ok (i, g0), before) opened k =
      after_make-Round g g0 h w before i _ _ _ _ opened refl k

  make_round-Round :
      (g h : Growth) (w : W)
      → (make_round web bot guild g w).0 ≡ ok h
      → Round g w h (make_round web bot guild g w).1
  unfolding make_round
  make_round-Round g h w k =
      make_one-Round g h w (open_category web bot guild g w) (open_category-Opened g w) k

  AllNoted-keeps :
      (items : List ProvisionItem) (made after : List (Text × ProvisionItem))
      → ((k : Text) → has k (made_ids made) ≡ true → has k (made_ids after) ≡ true)
      → AllNoted items made
      → AllNoted items after
  AllNoted-keeps [] made after keeps noted = tt
  AllNoted-keeps (item ∷ items) made after keeps (here, rest) =
      (keeps item.channel.id here, AllNoted-keeps items made after keeps rest)

  -- what a loop that ends does: the channels that were missing, one after the other
  pub grow-Creates :
      (fuel desired : ℕ) (g h : Growth) (w : W)
      → desired ≤ g.storage_count + fuel
      → (grow web bot guild fuel desired g w).0 ≡ ok h
      → (items : List ProvisionItem) × ((length items ≡ desired - g.storage_count)
          × (Creates (grow web bot guild fuel desired g w).1 w items
              × (AllNoted items h.made × Keeps g h)))
  unfolding grow
  grow-Creates zero desired g h w enough =
      λ k. ([], (omega arith, (done, (tt, rw (← (ok-inj k)) (λ j noted. noted)))))
  grow-Creates (suc fuel) desired g h w enough = elim (Bool-cases (ltb g.storage_count desired)) [
    | inr e ↦
        rw (e, grow)
          (λ k. ([], (ground (arith, e), (done, (tt, rw (← (ok-inj k)) (λ j noted. noted))))))
    | inl e ↦
        rw (e, grow)
          (λ k.
            let less : g.storage_count < desired = ltb→lt g.storage_count desired e in
            let (g1, (first, rest)) =
              and_on-ok (grow web bot guild fuel desired) (make_round web bot guild g w) h k in
            let (item, (makes, (noted, (keeps, count)))) = make_round-Round g g1 w first in
            let (items, (number, (created, (others, kept)))) =
              grow-Creates fuel desired g1 h (make_round web bot guild g w).1 (omega (arith, count))
                rest in
            (
              item ∷ items,
              (
                omega (arith, number, count),
                (
                  rw
                      (and_on_done (grow web bot guild fuel desired) (make_round web bot guild g w)
                        g1 first)
                      (makes _ items created),
                  ((kept item.channel.id noted, others), λ j h. kept j (keeps j h)),
                ),
              ),
            ))
  ]
