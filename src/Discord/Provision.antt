-- ===== src/Discord/Provision.antt =====
-- internal/discord/client.go and internal/discord/pool.go: the calls that list, make and clean the
-- channels, categories and webhooks of a server.
use discord_free_cloud.Base.{
  ℕ, ◌-◌, ◌*◌, List, [], ◌∷◌, ◌++◌, Bool, true, false, ◌&&◌, ◌||◌, not, Option, some, none, Result,
  ok, err, ltb, ◌==◌, if◌then◌else◌, length, take, replicate, Text, codes, dec, bytes_eq, to_lower,
  trim_space,
}
use discord_free_cloud.Discord.{
  Channel, Webhook, Body, category_json, channel_json, webhook_json, http_get, http_post,
  HttpRequest, Response, Web, WebError, bad_request, bad_answer, unreachable, bad_settings,
  bad_status, nil_request, api_base, millisecond,
}
use discord_free_cloud.Discord.Calls.{empty, channel_url, plain_request}

pub record ProvisionItem : Type 0 where
  pub channel : Channel
  pub webhook : Webhook

-- `strings.EqualFold`, on ASCII text
unfoldable pub equal_fold : Text → Text → Bool
unfolding to_lower
equal_fold a b = bytes_eq (to_lower a) (to_lower b)

-- `%0*d`
unfoldable pub padded : (width n : ℕ) → Text
padded width n = let digits = dec n in replicate (width - length digits) 48 ++ digits

unfoldable pub guild_url : Text → Text
guild_url guild = api_base ++ (codes "/guilds/" ++ (guild ++ codes "/channels"))

webhooks_url : Text → Text
unfolding channel_url
webhooks_url channel = channel_url channel ++ codes "/webhooks"

post_request : (bot url : Text) → Body → HttpRequest
post_request bot url body = record {
  method = http_post;
  url = url;
  authorization = some bot;
  body = body;
}

-- the id of the category with the name
unfoldable pub category_named : Text → List Channel → Option Text
unfolding equal_fold
category_named name [] = none
category_named name (ch ∷ rest) =
    let found = category_named name rest in
    if (ch.kind == 4) && equal_fold ch.name name then some ch.id else found

-- the name that a category gets: at most ninety bytes
unfoldable pub category_name : Text → Text
unfolding trim_space
category_name name =
    let trimmed = trim_space name in if ltb 90 (length trimmed) then take 90 trimmed else trimmed

module _ {W : Type 0} (web : Web W) (bot : Text) where
  unfoldable pub list_guild_channels : (guild : Text) → W → Result WebError (List Channel) × W
  unfolding guild_url plain_request
  list_guild_channels guild w =
      if not (web.valid_url (guild_url guild))
      then (err bad_request, w)
      else let (reply, w1) = web.send (plain_request http_get bot (guild_url guild)) w in
        elim reply [
          | none ↦ (err unreachable, w1)
          | some r ↦ (
            if not (r.status == 200)
                then err (bad_status r.status)
                else if (web.read_channels r.body).1
                then ok (web.read_channels r.body).0
                else err bad_answer,
            w1,
          )
        ]

  -- the category that is there already, if the listing can be had
  existing_category : (guild name : Text) → W → Option Text × W
  unfolding guild_url plain_request category_named
  existing_category guild name w =
      if not (web.valid_url (guild_url guild))
      then (none, w)
      else let (reply, w1) = web.send (plain_request http_get bot (guild_url guild)) w in
        elim reply [
          | none ↦ (none, w1)
          | some r ↦ (category_named name (web.read_channels r.body).0, w1)
        ]

  make_category : (guild name : Text) → W → Result WebError Text × W
  unfolding guild_url post_request
  make_category guild name w =
      if not (web.valid_url (guild_url guild))
      then (err bad_request, w)
      else let (reply, w1) =
          web.send (post_request bot (guild_url guild) (category_json name 4)) w in
        elim reply [
          | none ↦ (err unreachable, w1)
          | some r ↦ (
            if r.status == 200 || r.status == 201
                then ok (web.read_channel r.body).0.id
                else err (bad_status r.status),
            w1,
          )
        ]

  category_or_make : (guild name : Text) → Option Text × W → Result WebError Text × W
  unfolding make_category
  category_or_make guild name (some id, w) = (ok id, w)
  category_or_make guild name (none, w) = make_category guild name w

  unfoldable pub find_or_create_category : (guild name : Text) → W → Result WebError Text × W
  unfolding existing_category category_or_make category_name empty
  find_or_create_category guild name w =
      if empty bot || empty guild
      then (err bad_settings, w)
      else category_or_make guild (category_name name)
          (existing_category guild (category_name name) w)

  -- The status of the answer is not looked at.
  unfoldable pub create_webhook : (channel name : Text) → W → Result WebError Webhook × W
  unfolding webhooks_url post_request
  create_webhook channel name w =
      if not (web.valid_url (webhooks_url channel))
      then (err nil_request, w)
      else let (reply, w1) =
          web.send
            (post_request bot (webhooks_url channel) (webhook_json (name ++ codes " Uploader")))
            w in
        elim reply [ none ↦ (err unreachable, w1) | some r ↦ (ok (web.read_webhook r.body).0, w1) ]

  channel_request : (guild category name topic : Text) → HttpRequest
  unfolding guild_url post_request empty
  channel_request guild category name topic =
      post_request bot (guild_url guild)
        (channel_json name topic 0 (if empty category then none else some category))

  provision : Channel → Result WebError Webhook × W → Result WebError ProvisionItem × W
  provision ch (err e, w) = (err e, w)
  provision ch (ok hook, w) = (ok (record { channel = ch; webhook = hook }), w)

  -- Here neither; a channel that Discord refuses to make is one with an empty id.
  unfoldable pub create_channel :
      (guild category name topic : Text) → W → Result WebError ProvisionItem × W
  unfolding channel_request guild_url create_webhook provision
  create_channel guild category name topic w =
      if not (web.valid_url (guild_url guild))
      then (err nil_request, w)
      else let (reply, w1) = web.send (channel_request guild category name topic) w in
        elim reply [
          | none ↦ (err unreachable, w1)
          | some r ↦
              let ch = (web.read_channel r.body).0 in
              provision ch (create_webhook ch.id name (web.sleep (100 * millisecond) w1))
        ]

  -- the first webhook of a listing
  first_webhook : List Webhook × Bool → Option Webhook
  first_webhook ([], decoded) = none
  first_webhook (hook ∷ rest, false) = none
  first_webhook (hook ∷ rest, true) = some hook

  hook_or_create : (channel name : Text) → Response → W → Result WebError Webhook × W
  unfolding first_webhook create_webhook
  hook_or_create channel name r w =
      if r.status == 200
      then elim (first_webhook (web.read_webhooks r.body)) [
        | some hook ↦ (ok hook, w)
        | none ↦ create_webhook channel name w
      ]
      else if r.status == 404
      then create_webhook channel name w
      else (err (bad_status r.status), w)

  unfoldable pub ensure_single_webhook : (channel name : Text) → W → Result WebError Webhook × W
  unfolding webhooks_url plain_request hook_or_create
  ensure_single_webhook channel name w =
      if not (web.valid_url (webhooks_url channel))
      then (err bad_request, w)
      else let (reply, w1) = web.send (plain_request http_get bot (webhooks_url channel)) w in
        elim reply [ none ↦ (err unreachable, w1) | some r ↦ hook_or_create channel name r w1 ]
