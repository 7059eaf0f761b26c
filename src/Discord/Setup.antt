-- ===== src/Discord/Setup.antt =====
-- internal/discord/client.go: the channels of a file or a folder, the parent of a channel, and the
-- cleaning of a server.
use discord_free_cloud.Base.{
  ℕ, zero, suc, ◌+◌, ◌*◌, List, [], ◌∷◌, ◌++◌, Bool, ◌&&◌, ◌||◌, not, Option, some, none, Result,
  ok, err, ltb, ◌==◌, if◌then◌else◌, length, take, map, Text, codes, dec, bytes_eq, to_lower,
  has_prefix,
}
use discord_free_cloud.Discord.{
  Channel, http_get, Web, WebError, bad_request, bad_answer, unreachable, bad_settings, bad_status,
  millisecond,
}
use discord_free_cloud.Discord.Calls.{empty, channel_url, plain_request, delete_channel}
use discord_free_cloud.Discord.Provision.{
  ProvisionItem, equal_fold, padded, guild_url, find_or_create_category, create_channel,
}
use discord_free_cloud.Discord.Retry.{Limits, wait_both}

-- `strings.Contains`
contains : Text → Text → Bool
unfolding has_prefix
contains part [] = bytes_eq part []
contains part (c ∷ text) = has_prefix (c ∷ text) part || contains part text

-- `strings.ReplaceAll` of a character by another
replace_char : (old new : ℕ) → Text → Text
replace_char old new = map (λ c. if c == old then new else c)

-- what the cleaning of a server leaves alone
spared : Channel → Bool
unfolding equal_fold contains replace_char to_lower
spared ch =
    let name = to_lower (replace_char 45 32 ch.name) in
    (equal_fold ch.name (codes "general") || contains (codes "metadata") name)
    || contains (codes "catalog") name

-- and the text channels that it deletes
is_storage : Channel → Bool
unfolding contains replace_char to_lower empty
is_storage ch =
    let name = to_lower (replace_char 45 32 ch.name) in
    ((contains (codes "part") name || contains (codes "shard") name)
      || (contains (codes "chunk") name || contains (codes "storage") name))
    || not (empty ch.parent_id)

-- the text channels to delete, then the categories
unfoldable pub doomed_channels : List Channel → List Text
unfolding spared is_storage
doomed_channels [] = []
doomed_channels (ch ∷ rest) =
    let ids = doomed_channels rest in
    if not (spared ch) && ((ch.kind == 0) && is_storage ch) then ch.id ∷ ids else ids

unfoldable pub doomed_categories : List Channel → List Text
unfolding spared
doomed_categories [] = []
doomed_categories (ch ∷ rest) =
    let ids = doomed_categories rest in
    if not (spared ch) && (ch.kind == 4) then ch.id ∷ ids else ids

module _ {W : Type 0} (web : Web W) (bot : Text) where
  pub get_channel_parent_id : Text → Limits → W → Result WebError Text × W
  unfolding wait_both channel_url plain_request empty
  get_channel_parent_id channel l w =
      if empty channel
      then (ok [], w)
      else let w1 = wait_both web channel l w in
        if not (web.valid_url (channel_url channel))
        then (err bad_request, w1)
        else let (reply, w2) = web.send (plain_request http_get bot (channel_url channel)) w1 in
          elim reply [
            | none ↦ (err unreachable, w2)
            | some r ↦ (
              if not (r.status == 200)
                  then err (bad_status r.status)
                  else if (web.read_channel r.body).1
                  then ok (web.read_channel r.body).0.parent_id
                  else err bad_answer,
              w2,
            )
          ]

  -- The errors of the deletions are not looked at; the count is of the channels tried.
  delete_all : List Text → ℕ → Limits → W → (ℕ × Limits) × W
  unfolding delete_channel
  delete_all [] count l w = ((count, l), w)
  delete_all (id ∷ rest) count l w =
      let ((_, l1), w1) = delete_channel web bot id l w in
      delete_all rest (count + 1) l1 (web.sleep (100 * millisecond) w1)

  pub clean_existing_storage_channels :
      (guild : Text) → Limits → W → (Result WebError ℕ × Limits) × W
  unfolding empty guild_url plain_request doomed_channels doomed_categories delete_all
  clean_existing_storage_channels guild l w =
      if empty bot || empty guild
      then ((err bad_settings, l), w)
      else if not (web.valid_url (guild_url guild))
      then ((err bad_request, l), w)
      else let (reply, w1) = web.send (plain_request http_get bot (guild_url guild)) w in
        elim reply [
          | none ↦ ((err unreachable, l), w1)
          | some r ↦
              let channels = (web.read_channels r.body).0 in
              let ((count, l1), w2) =
                delete_all (doomed_channels channels ++ doomed_categories channels) 0 l w1 in
              ((ok count, l1), w2)
        ]

  -- the channels made so far, with the error at which the loop has ended
  create_parts :
      (guild category : Text) (channel_name : ℕ → Text) (file : Text)
      → (left i : ℕ) → List ProvisionItem
      → W
      → (List ProvisionItem × Option WebError) × W
  unfolding create_channel
  create_parts guild category channel_name file zero i parts w = ((parts, none), w)
  create_parts guild category channel_name file (suc left) i parts w =
      let topic = codes "Part " ++ (dec i ++ (codes " for " ++ file)) in
      let (made, w1) = create_channel web bot guild category (channel_name i) topic w in
      elim made [
        | err e ↦ ((parts, some e), w1)
        | ok item ↦
            create_parts guild category channel_name file left (i + 1) (parts ++ (item ∷ [])) w1
      ]

  category_or_none : Result WebError Text → Text
  category_or_none (ok id) = id
  category_or_none (err e) = []

  -- The category may be missing; its channels then stand outside of any.
  pub setup_channels :
      (guild file : Text) → ℕ → W → (Text × (List ProvisionItem × Option WebError)) × W
  unfolding find_or_create_category create_parts category_or_none padded
  setup_channels guild file count w =
      let (found, w1) = find_or_create_category web bot guild file w in
      let category = category_or_none found in
      let (made, w2) =
        create_parts guild category (λ i. codes "part " ++ padded 2 i) file count 1 [] w1 in
      ((category, made), w2)

  pub setup_folder_channels :
      (guild category file : Text) → ℕ → W → (List ProvisionItem × Option WebError) × W
  unfolding create_parts replace_char padded
  setup_folder_channels guild category file count w =
      let spaced = replace_char 46 32 file in
      let name = if ltb 20 (length spaced) then take 20 spaced else spaced in
      create_parts guild category (λ i. name ++ (codes " part " ++ padded 2 i)) file count 1 [] w
