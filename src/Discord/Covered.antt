-- ===== src/Discord/Covered.antt =====
-- internal/discord/pool.go: what the pool that `SyncPool` gives holds.
use discord_free_cloud.Base.{length, ◌-◌, ℕ, max, List, [], ◌∷◌, true, ok, ◌≡◌, Text, has, map}
use discord_free_cloud.Discord.{Web}
use discord_free_cloud.Discord.Categories.{ManagedCategory}
use discord_free_cloud.Discord.Filling.{Extends}
use discord_free_cloud.Discord.Created.{Creates}
use discord_free_cloud.Discord.Growth.{Growth, grow, total_count}
use discord_free_cloud.Discord.Provision.{ProvisionItem}
use discord_free_cloud.Discord.SyncPool.{pool_target, start_growth}

abbrev pub item_ids : List ProvisionItem → List Text
item_ids items = map (λ item. item.channel.id) items

-- the channels of the items are in the pool
abbrev pub AllInPool : List ProvisionItem → List ProvisionItem → Type 0
AllInPool [] items = Unit {0}
AllInPool (item ∷ made) items = (has item.channel.id (item_ids items) ≡ true) × AllInPool made items

module _ {W : Type 0} (web : Web W) (bot guild : Text) where
  -- What a sync does from a world on: Discord has made the channels that were missing, these are in the
  -- pool that the sync gives, and the loop of this run ends with categories that extend the old ones.
  abbrev pub Synced : ℕ → List ManagedCategory → W → List ProvisionItem → Type 0
  Synced desired cats w items =
      let run =
        grow web bot guild (pool_target desired) (pool_target desired) (start_growth cats) w in
      ((made : List ProvisionItem) × ((length made ≡ pool_target desired - total_count cats)
          × (Creates web bot guild run.1 w made × AllInPool made items)))
      × ((g : Growth) × ((run.0 ≡ ok g)
            × ((total_count g.cats ≡ max (total_count cats) (pool_target desired))
                × Extends cats g.cats)))
