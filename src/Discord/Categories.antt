-- ===== src/Discord/Categories.antt =====
-- internal/discord/pool.go: `managedCategory` and `buildManagedCategories`.
use discord_free_cloud.Base.{
  ℕ, ◌+◌, List, [], ◌∷◌, ◌&&◌, not, Option, some, none, Result, ok, err, leb, ltb, ◌==◌,
  if◌then◌else◌, Text, bytes_eq, trim_space, lookup, has, map,
}
use discord_free_cloud.Db.Rows.{order_by}
use discord_free_cloud.Discord.{Channel, Web, WebError, no_base}
use discord_free_cloud.Discord.Calls.{empty}
use discord_free_cloud.Discord.Provision.{equal_fold, find_or_create_category}
use discord_free_cloud.Pool.{overflow_index}

pub record ManagedCategory : Type 0 where
  pub id : Text
  pub name : Text
  pub order : ℕ
  pub count : ℕ

-- the fields of the client that the pool reads
pub record PoolClient : Type 0 where
  pub bot_token : Text
  pub pool_prefix : Text
  pub base_cats : List (Text × Text)

-- `baseCategoryFor`
base_category_for : Text → PoolClient → Text
base_category_for guild c = elim (lookup guild c.base_cats) [ none ↦ [] | some id ↦ id ]

-- the name of the channel with the id; the empty text if there is none
channel_name : Text → List Channel → Text
channel_name id [] = []
channel_name id (ch ∷ rest) =
    let found = channel_name id rest in if bytes_eq ch.id id then ch.name else found

-- the category that has the prefix for its name
with_prefix : Text → List Channel → Option Channel
unfolding equal_fold trim_space
with_prefix prefix [] = none
with_prefix prefix (ch ∷ rest) =
    let found = with_prefix prefix rest in
    if (ch.kind == 4) && equal_fold (trim_space ch.name) prefix then some ch else found

-- A channel without an id counts as none.
with_id : Option Channel → Option Channel
unfolding empty
with_id none = none
with_id (some ch) = if empty ch.id then none else some ch

-- the categories of the listing that overflow the base, with the ids seen
overflowing : (base_name : Text) → List Text → List Channel → List ManagedCategory × List Text
overflowing base_name seen [] = ([], seen)
overflowing base_name seen (ch ∷ rest) =
    let order = overflow_index base_name ch.name in
    if ((ch.kind == 4) && not (has ch.id seen)) && ltb 0 order
    then (let (cats, seen') = overflowing base_name (ch.id ∷ seen) rest in
        (record { id = ch.id; name = ch.name; order = order; count = 0 } ∷ cats, seen'))
    else overflowing base_name seen rest

-- how many text channels of the listing stand in the category
unfoldable pub count_in : Text → List Channel → ℕ
count_in id [] = 0
count_in id (ch ∷ rest) =
    let n = count_in id rest in if (ch.kind == 0) && bytes_eq ch.parent_id id then n + 1 else n

counted : List Channel → ManagedCategory → ManagedCategory
unfolding count_in
counted channels c = record c { count = count_in c.id channels }

-- the categories around a base, in their order and with their counts
unfoldable pub categories_of : (base_id base_name : Text) → List Channel → List ManagedCategory
unfolding overflowing counted count_in order_by
categories_of base_id base_name channels =
    let base : ManagedCategory = record { id = base_id; name = base_name; order = 1; count = 0 } in
    map (counted channels) (
      order_by (λ a b. leb a.order b.order)
        (base ∷ (overflowing base_name (base_id ∷ []) channels).0))

around_base :
    List Channel → (prefix : Text) → Result WebError Text → Result WebError (List ManagedCategory)
around_base channels prefix (err e) = err e
around_base channels prefix (ok id) = ok (categories_of id prefix channels)

module _ {W : Type 0} (web : Web W) where
  unfoldable pub build_managed_categories :
      PoolClient → (guild : Text) → List Channel → W → Result WebError (List ManagedCategory) × W
  unfolding base_category_for channel_name with_prefix with_id around_base empty
  build_managed_categories c guild channels w =
      let pinned = base_category_for guild c in
      if not (empty pinned)
      then (
        if empty (channel_name pinned channels)
            then err no_base
            else ok (categories_of pinned (channel_name pinned channels) channels),
        w,
      )
      else elim (with_id (with_prefix c.pool_prefix channels)) [
        | some ch ↦ (ok (categories_of ch.id ch.name channels), w)
        | none ↦
            let (found, w1) = find_or_create_category web c.bot_token guild c.pool_prefix w in
            (around_base channels c.pool_prefix found, w1)
      ]
