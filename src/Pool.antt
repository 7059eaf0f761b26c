-- ===== src/Pool.antt =====
-- internal/uploader/uploader.go and internal/discord/pool.go: how many storage channels a server keeps,
-- and which of its categories belong to the pool. The ceiling of the quotient is exact here.
use discord_free_cloud.Base.{
  ℕ, zero, suc, ◌+◌, ◌-◌, ◌*◌, ◌/◌, ◌^◌, ◌≤◌, [], ◌∷◌, ◌++◌, Bool, true, ◌&&◌, not, Option, some,
  none, Result, ok, err, ltb, leb, ◌==◌, if◌then◌else◌, length, drop, arith, Text, codes, bytes_eq,
  value_from, to_lower, trim_space, has_prefix,
}
use discord_free_cloud.Db.{Store, DbError}
use discord_free_cloud.Db.Settings.{get_setting}
use discord_free_cloud.Db.Counts.{guild_storage_bytes}

are_digits : Text → Bool
are_digits [] = true
are_digits (c ∷ cs) = (leb 48 c && leb c 57) && are_digits cs

unfoldable pub number_of : Text → Option ℕ
unfolding are_digits
number_of text =
    let n = value_from 0 text in
    if not (length text == 0) && are_digits text && ltb n (2 ^ 63) then some n else none

-- `strconv.Atoi`, with `none` for an error and for a negative number, which no caller takes
unfoldable pub atoi : Text → Option ℕ
unfolding number_of
atoi [] = none
atoi (c ∷ cs) = if c == 43 then number_of cs else number_of (c ∷ cs)

positive_or : ℕ → Option ℕ → ℕ
positive_or fallback none = fallback
positive_or fallback (some zero) = fallback
positive_or fallback (some (suc n)) = suc n

int_of : ℕ → Result DbError Text → ℕ
unfolding positive_or trim_space
int_of fallback (err e) = fallback
int_of fallback (ok v) =
    if bytes_eq (trim_space v) [] then fallback else positive_or fallback (atoi (trim_space v))

pub setting_int : Text → ℕ → Store → ℕ × Store
unfolding int_of
setting_int key fallback s = let r = get_setting key s in (int_of fallback r.0, r.1)

abbrev pub max_pool_target : ℕ
max_pool_target = 200

-- what `poolDesired` computes of the least size, the budget of a channel and the bytes stored
pub desired_of : (min_pool budget stored : ℕ) → ℕ
desired_of min_pool budget stored =
    let least = if ltb min_pool 4 then 4 else min_pool in
    let n = (stored + budget - 1) / budget in
    let want = if (ltb 0 budget && ltb 0 stored) && ltb least n then n else least in
    if ltb max_pool_target want then max_pool_target else want

pub pool_desired : Text → Store → ℕ × Store
unfolding setting_int desired_of
pool_desired guild_id s =
    let min_pool = setting_int (codes "pool_channels") 12 s in
    let budget = setting_int (codes "channel_byte_budget") (512 * 1024 * 1024) min_pool.1 in
    let stored = guild_storage_bytes guild_id budget.1 in
    (desired_of min_pool.0 budget.0 stored.0, stored.1)

-- A server keeps at least four channels and at most the cap, whatever its settings say.
pub pool_desired_bounds :
    (guild_id : Text) (s : Store)
    → (4 ≤ (pool_desired guild_id s).0) × ((pool_desired guild_id s).0 ≤ max_pool_target)
unfolding pool_desired desired_of
pool_desired_bounds guild_id s = (ground arith, ground arith)

or_index : Option ℕ → ℕ
or_index none = 0
or_index (some n) = if ltb n 2 then 0 else n

-- the index of an overflow category: 1 for the base name, N for "<base> N" with N from 2 on, else 0
pub overflow_index : (base_name name : Text) → ℕ
unfolding or_index to_lower trim_space has_prefix
overflow_index base_name name =
    let base = to_lower (trim_space base_name) in
    let lower = to_lower (trim_space name) in
    if bytes_eq lower base
    then 1
    else if not (has_prefix lower (base ++ codes " "))
    then 0
    else or_index (atoi (trim_space (drop (length base + 1) lower)))
