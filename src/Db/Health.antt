-- ===== src/Db/Health.antt =====
-- internal/db/db.go: `BulkChunkHealth`, and the tally of parts that it shares with `fileHealth` of
-- internal/server/qol.go. A Go map used as a set is a list without repetitions.
pub mod Order
pub mod Bulk
use discord_free_cloud.Base.{
  and_on, ℕ, zero, suc, ◌+◌, ◌-◌, List, [], ◌∷◌, Bool, true, false, ◌&&◌, ◌||◌, not, Option, some,
  none, Result, ok, err, ltb, ◌==◌, if◌then◌else◌, length, take, drop, Text, bytes_eq, lookup,
  insert, has,
}
use discord_free_cloud.Db.{ChunkRecord, Store, DbError, query}
use discord_free_cloud.Db.Chunks.{is_completed}
use discord_free_cloud.Db.Rows.{select}

pub data HealthStatus : Type 0 where
  healthy partial_parts no_parts : HealthStatus

pub record ChunkHealth : Type 0 where
  pub attachments : ℕ
  pub parts : ℕ
  pub servers : ℕ
  pub health : HealthStatus

-- what the loop over the rows of a file gathers
pub record Tally : Type 0 where
  pub seen_parts : List ℕ
  pub stored_parts : List ℕ
  pub stored_count : ℕ
  pub guilds : List Text

unfoldable pub member {ℓ} : {A : Type ℓ} → (A → A → Bool) → A → List A → Bool
member eq x [] = false
member eq x (y ∷ ys) = eq y x || member eq x ys

-- `set[x] = true`
unfoldable pub add_to_set {ℓ} : {A : Type ℓ} → (A → A → Bool) → A → List A → List A
unfolding member
add_to_set eq x xs = if member eq x xs then xs else x ∷ xs

abbrev pub same_index : ℕ → ℕ → Bool
same_index i j = i == j

abbrev pub empty_tally : Tally
empty_tally = record { seen_parts = []; stored_parts = []; stored_count = 0; guilds = [] }

unfoldable pub put_guild : Text → List Text → List Text
unfolding add_to_set
put_guild guild guilds = if bytes_eq guild [] then guilds else add_to_set bytes_eq guild guilds

-- the body of the loop
unfoldable pub add_row : Tally → ChunkRecord → Tally
unfolding add_to_set put_guild is_completed
add_row t c =
    if is_completed c.status
    then record {
      seen_parts = add_to_set same_index c.chunk_index t.seen_parts;
      stored_parts = add_to_set same_index c.chunk_index t.stored_parts;
      stored_count = t.stored_count + 1;
      guilds = put_guild c.guild_id t.guilds;
    }
    else record t { seen_parts = add_to_set same_index c.chunk_index t.seen_parts }

unfoldable pub tally_rows : Tally → List ChunkRecord → Tally
unfolding add_row
tally_rows t [] = t
tally_rows t (c ∷ cs) = tally_rows (add_row t c) cs

-- what the listing says of a tally
unfoldable pub health_of : Tally → ChunkHealth
health_of t = record {
  attachments = t.stored_count;
  parts = length t.seen_parts;
  servers = length t.guilds;
  health =
      if length t.stored_parts == 0
      then no_parts
      else if ltb (length t.stored_parts) (length t.seen_parts)
      then partial_parts
      else healthy;
}

or_empty_tally : Option Tally → Tally
or_empty_tally none = empty_tally
or_empty_tally (some t) = t

-- the rows of many files, each under its file
unfoldable pub add_by_file : List (Text × Tally) → List ChunkRecord → List (Text × Tally)
unfolding add_row or_empty_tally
add_by_file tallies [] = tallies
add_by_file tallies (c ∷ cs) =
    add_by_file (insert c.file_id (add_row (or_empty_tally (lookup c.file_id tallies)) c) tallies)
      cs

-- `maxIDs`
abbrev pub max_ids : ℕ
max_ids = 20000

-- a statement for each batch of ids
unfoldable pub bulk_tallies :
    (fuel size : ℕ)
    → List Text
    → List (Text × Tally)
    → Store
    → Result DbError (List (Text × Tally)) × Store
unfolding add_by_file query select has and_on
bulk_tallies zero size ids tallies s = (ok tallies, s)
bulk_tallies (suc fuel) size [] tallies s = (ok tallies, s)
bulk_tallies (suc fuel) size (id ∷ ids) tallies s =
    let batch = take size (id ∷ ids) in
    and_on (λ found. bulk_tallies fuel size (drop size (id ∷ ids)) (add_by_file tallies found))
      (query (λ t. ok (select (λ c. has c.file_id batch) t.chunks)) s)

healths : List (Text × Tally) → List (Text × ChunkHealth)
unfolding health_of
healths [] = []
healths ((id, t) ∷ rest) = (id, health_of t) ∷ healths rest

health_map : Result DbError (List (Text × Tally)) → Result DbError (List (Text × ChunkHealth))
unfolding healths
health_map (err e) = err e
health_map (ok tallies) = ok (healths tallies)

-- The ids are as many as the fuel, and every batch takes one at least.
unfoldable pub bulk_chunk_health :
    List Text → Store → Result DbError (List (Text × ChunkHealth)) × Store
unfolding bulk_tallies health_map
bulk_chunk_health ids s =
    let (tallies, s1) = bulk_tallies (length ids) max_ids ids [] s in (health_map tallies, s1)
