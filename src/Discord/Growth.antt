-- ===== src/Discord/Growth.antt =====
-- internal/discord/pool.go: the loop of `SyncPool` that makes channels until there are enough.
use discord_free_cloud.Base.{
  and_on, ℕ, zero, suc, ◌+◌, ◌*◌, List, [], ◌∷◌, ◌++◌, true, false, Option, some, none, Result, ok,
  err, ltb, if◌then◌else◌, Text, codes, dec, insert,
}
use discord_free_cloud.Discord.{Web, WebError, millisecond}
use discord_free_cloud.Discord.Categories.{ManagedCategory}
use discord_free_cloud.Discord.Provision.{
  ProvisionItem, find_or_create_category, create_channel, padded,
}

abbrev pub max_channels_per_category : ℕ
max_channels_per_category = 40

-- what the loop changes; `made` is the map `fresh` by the ids of the channels
pub record Growth : Type 0 where
  pub cats : List ManagedCategory
  pub managed : List Text
  pub made : List (Text × ProvisionItem)
  pub storage_count : ℕ
  pub seq : ℕ
  pub next_order : ℕ

-- the first category with room, by its place
unfoldable pub first_open : List ManagedCategory → Option ℕ
first_open [] = none
first_open (c ∷ rest) =
    let found = first_open rest in
    if ltb c.count max_channels_per_category
    then some 0
    else elim found [ none ↦ none | some i ↦ some (suc i) ]

-- `target.count++`
unfoldable pub count_up : ℕ → List ManagedCategory → List ManagedCategory
count_up i [] = []
count_up zero (c ∷ rest) = record c { count = c.count + 1 } ∷ rest
count_up (suc i) (c ∷ rest) = c ∷ count_up i rest

unfoldable pub id_at : ℕ → List ManagedCategory → Text
id_at i [] = []
id_at zero (c ∷ rest) = c.id
id_at (suc i) (c ∷ rest) = id_at i rest

unfoldable pub first_name : List ManagedCategory → Text
first_name [] = []
first_name (c ∷ rest) = c.name

unfoldable pub places : List ManagedCategory → ℕ
places [] = 0
places (c ∷ rest) = suc (places rest)

-- the storage channels of the categories
unfoldable pub total_count : List ManagedCategory → ℕ
total_count [] = 0
total_count (c ∷ rest) = c.count + total_count rest

-- a fresh category at the end of the list
unfoldable pub with_category : Text → Text → Growth → Growth
with_category id name g = record g {
  cats = g.cats ++ (record { id = id; name = name; order = g.next_order + 1; count = 0 } ∷ []);
  managed = id ∷ g.managed;
  next_order = g.next_order + 1;
}

-- the loop's state once a channel stands in the category at a place
unfoldable pub grown : ℕ → ProvisionItem → Growth → Growth
unfolding count_up
grown i item g = record g {
  cats = count_up i g.cats;
  made = insert item.channel.id item g.made;
  storage_count = g.storage_count + 1;
  seq = g.seq + 1;
}

module _ {W : Type 0} where
  -- behind the opening of a category: its place, and the state with it
  unfoldable pub after_open :
      Text → Growth → Result WebError Text × W → Result WebError (ℕ × Growth) × W
  unfolding with_category places
  after_open name g (err e, w) = (err e, w)
  after_open name g (ok id, w) = (ok (places g.cats, with_category id name g), w)

  -- behind the making of a channel, which a pause follows
  unfoldable pub after_make :
      (W → W) → ℕ → Growth → Result WebError ProvisionItem × W → Result WebError Growth × W
  unfolding grown
  after_make pause i g (err e, w) = (err e, w)
  after_make pause i g (ok item, w) = (ok (grown i item g), pause w)

module _ {W : Type 0} (web : Web W) (bot guild : Text) where
  -- the place of the category that gets the next channel, behind the opening of a fresh one if all
  -- are full
  unfoldable pub open_category : Growth → W → Result WebError (ℕ × Growth) × W
  unfolding first_open first_name after_open find_or_create_category
  open_category g w = elim (first_open g.cats) [
    | some i ↦ (ok (i, g), w)
    | none ↦
        let name = first_name g.cats ++ (codes " " ++ dec (g.next_order + 1)) in
        after_open name g (find_or_create_category web bot guild name w)
  ]

  unfoldable pub make_one : Result WebError (ℕ × Growth) × W → Result WebError Growth × W
  unfolding id_at after_make create_channel padded
  make_one (err e, w) = (err e, w)
  make_one (ok (i, g), w) =
      let name = codes "storage " ++ padded 3 g.seq in
      after_make (web.sleep (150 * millisecond)) i g (
        create_channel web bot guild (id_at i g.cats) name (codes "Encrypted cloud storage shard")
          w)

  -- one round of the loop
  unfoldable pub make_round : Growth → W → Result WebError Growth × W
  unfolding open_category make_one
  make_round g w = make_one (open_category g w)

  -- `for storageCount < desired`, with fuel
  unfoldable pub grow : (fuel desired : ℕ) → Growth → W → Result WebError Growth × W
  unfolding make_round and_on
  grow zero desired g w = (ok g, w)
  grow (suc fuel) desired g w = elim (ltb g.storage_count desired) [
    | false ↦ (ok g, w)
    | true ↦ and_on (grow fuel desired) (make_round g w)
  ]
