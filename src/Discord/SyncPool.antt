-- ===== src/Discord/SyncPool.antt =====
-- internal/discord/pool.go: `SyncPool`.
use discord_free_cloud.Base.{
  and_on, ℕ, ◌+◌, List, [], ◌∷◌, ◌++◌, Bool, true, false, ◌&&◌, ◌||◌, Option, some, none, Result,
  ok, err, ltb, ◌==◌, if◌then◌else◌, Text, lookup, has, map,
}
use discord_free_cloud.Db.Rows.{order_by}
use discord_free_cloud.Discord.{Channel, Webhook, Web, WebError, bad_settings}
use discord_free_cloud.Discord.Calls.{empty}
use discord_free_cloud.Discord.Categories.{ManagedCategory, PoolClient, build_managed_categories}
use discord_free_cloud.Discord.Growth.{Growth, grow, total_count}
use discord_free_cloud.Discord.Provision.{ProvisionItem, list_guild_channels, ensure_single_webhook}
use discord_free_cloud.Pool.{max_pool_target}

-- `DefaultPoolTarget`
abbrev pub default_pool_target : ℕ
default_pool_target = 8

-- the size that a sync aims at; a size that is not positive is zero here
unfoldable pub pool_target : ℕ → ℕ
pool_target desired =
    let least = if ltb desired 1 then default_pool_target else desired in
    if ltb max_pool_target least then max_pool_target else least

highest_order : ℕ → List ManagedCategory → ℕ
highest_order n [] = n
highest_order n (c ∷ rest) = highest_order (if ltb n c.order then c.order else n) rest

-- the state in which the loop starts
unfoldable pub start_growth : List ManagedCategory → Growth
unfolding total_count highest_order
start_growth cats = record {
  cats = cats;
  managed = map (λ c. c.id) cats;
  made = [];
  storage_count = total_count cats;
  seq = total_count cats + 1;
  next_order = highest_order 1 cats;
}

-- the order of Go's strings
unfoldable pub text_leb : Text → Text → Bool
text_leb [] t = true
text_leb (x ∷ s) [] = false
text_leb (x ∷ s) (y ∷ t) = ltb x y || ((x == y) && text_leb s t)

-- whether a channel of the listing is of the pool
unfoldable pub is_managed : List Text → Channel → Bool
is_managed managed ch = (ch.kind == 0) && has ch.parent_id managed

-- the item of a channel whose webhook is known
with_hook : Channel → Result WebError Webhook → Option ProvisionItem
with_hook ch (err e) = none
with_hook ch (ok hook) = some (record { channel = ch; webhook = hook })

unfoldable pub cons_some {ℓ} : {A : Type ℓ} → Option A → List A → List A
cons_some none xs = xs
cons_some (some x) xs = x ∷ xs

-- The items of channels that were made but not listed, by their ids.
unfoldable pub unlisted :
    (seen : List Text) → List (Text × ProvisionItem) → List Text → List ProvisionItem
unfolding cons_some
unlisted seen made [] = []
unlisted seen made (id ∷ ids) =
    let items = unlisted seen made ids in
    if has id seen then items else cons_some (lookup id made) items

module _ {W : Type 0} (web : Web W) (bot guild : Text) where
  -- a channel that was just made has its webhook
  unfoldable pub item_of : List (Text × ProvisionItem) → Channel → W → Option ProvisionItem × W
  unfolding with_hook ensure_single_webhook
  item_of made ch w = elim (lookup ch.id made) [
    | some item ↦ (some (record { channel = ch; webhook = item.webhook }), w)
    | none ↦
        let (hook, w1) = ensure_single_webhook web bot ch.id ch.name w in (with_hook ch hook, w1)
  ]

  -- The items of the listing, without the channels whose webhook cannot be had, and the ids seen.
  unfoldable pub listed_items :
      List Text
      → List (Text × ProvisionItem)
      → List Channel
      → W
      → (List ProvisionItem × List Text) × W
  unfolding is_managed item_of cons_some
  listed_items managed made [] w = (([], []), w)
  listed_items managed made (ch ∷ rest) w = elim (is_managed managed ch) [
    | false ↦ listed_items managed made rest w
    | true ↦
        let (item, w1) = item_of made ch w in
        let ((items, seen), w2) = listed_items managed made rest w1 in
        ((cons_some item items, ch.id ∷ seen), w2)
  ]

  -- the whole pool: the listed channels, then those made but not listed
  unfoldable pub pool_of : List Channel → Growth → W → List ProvisionItem × W
  unfolding listed_items unlisted order_by text_leb
  pool_of channels g w =
      let ((items, seen), w1) = listed_items g.managed g.made channels w in
      (items ++ unlisted seen g.made (order_by text_leb (map (λ entry. entry.0) g.made)), w1)

  -- behind the listing and the look for the categories
  unfoldable pub sync_from :
      (desired : ℕ)
      → List Channel
      → List ManagedCategory
      → W
      → Result WebError (List ProvisionItem) × W
  unfolding and_on start_growth grow pool_of pool_target
  sync_from desired channels cats w =
      let target = pool_target desired in
      and_on (λ g w1. let (items, w2) = pool_of channels g w1 in (ok items, w2))
        (grow web bot guild target target (start_growth cats) w)

module _ {W : Type 0} (web : Web W) where
  unfoldable pub sync_pool :
      PoolClient → (guild : Text) → (desired : ℕ) → W → Result WebError (List ProvisionItem) × W
  unfolding empty and_on list_guild_channels build_managed_categories sync_from
  sync_pool c guild desired w =
      if empty c.bot_token || empty guild
      then (err bad_settings, w)
      else and_on
          (λ channels w1.
            and_on (sync_from web c.bot_token guild desired channels)
              (build_managed_categories web c guild channels w1))
          (list_guild_channels web c.bot_token guild w)
