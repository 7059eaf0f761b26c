-- ===== src/Discord/PoolTests.antt =====
-- internal/discord/pool.go: a sync of a server with one storage channel.
use discord_free_cloud.Base.{◌+◌, List, [], ◌∷◌, true, ◌≡◌, Text, codes, arith}
use discord_free_cloud.Discord.{Web, Channel, Webhook}
use discord_free_cloud.Discord.Categories.{PoolClient}
use discord_free_cloud.Discord.Filling.{grow_enough}
use discord_free_cloud.Discord.Growth.{grow}
use discord_free_cloud.Discord.Provision.{ProvisionItem}
use discord_free_cloud.Discord.Samples.{Scripted, scripted, answer, no_channel_at_all, no_webhook}
use discord_free_cloud.Discord.SyncPool.{start_growth}

abbrev category : Channel
category = record no_channel_at_all { id = codes "k"; name = codes "Files"; kind = 4 }

abbrev shard : Channel
shard = record no_channel_at_all {
  id = codes "s1";
  name = codes "storage 001";
  parent_id = codes "k";
}

abbrev server : Web Scripted
server = record scripted { read_channels = λ b. (category ∷ shard ∷ [], true) }

abbrev client : PoolClient
client = record { bot_token = codes "bot"; pool_prefix = codes "files"; base_cats = [] }

-- the listing, two channels with their webhooks, and the webhooks of the channel that is there
abbrev healthy : Scripted
healthy = (
  0,
  answer 200 []
      ∷ answer 201 (codes "s3")
      ∷ answer 200 (codes "h3")
      ∷ answer 201 (codes "s2")
      ∷ answer 200 (codes "h2")
      ∷ answer 200 []
      ∷ answer 200 (codes "h1")
      ∷ [],
)

abbrev hook : Text → Webhook
hook id = record no_webhook { id = id }

abbrev made_item : Text → Text → ProvisionItem
made_item id hook_id = record {
  channel = record no_channel_at_all { id = id };
  webhook = hook hook_id;
}

abbrev pool : List ProvisionItem
pool =
    record { channel = shard; webhook = hook (codes "h1") }
    ∷ made_item (codes "s2") (codes "h2")
    ∷ made_item (codes "s3") (codes "h3")
    ∷ []

grow_enough_example :
    grow server (codes "bot") (codes "g") (2 + 5) 2 (start_growth []) healthy
    ≡ grow server (codes "bot") (codes "g") 2 2 (start_growth []) healthy
grow_enough_example =
    grow_enough server (codes "bot") (codes "g") 2 5 2 (start_growth []) healthy (omega arith)
