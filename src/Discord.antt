-- ===== src/Discord.antt =====
-- internal/discord/client.go and internal/discord/pool.go: the client of Discord. The network, the
-- clock, the random numbers and the JSON decoder are a parameter, `Web`; times are nanoseconds. A
-- call gives its state and the world after it.
pub mod Retry
pub mod Calls
pub mod Log
pub mod Explained
pub mod Uploaded
pub mod Spacing
pub mod Holding
pub mod Outcomes
pub mod Provision
pub mod Categories
pub mod Growth
pub mod Filling
pub mod Created
pub mod SyncPool
pub mod Covered
pub mod Setup
pub mod Samples
mod Tests
mod PoolTests
use discord_free_cloud.Base.{ℕ, List, Bool, Option, Text, ◌≤◌, ◌+◌, ◌*◌, codes}

-- what Discord says in JSON of a rate limit; `retry_after` is the duration that the number of seconds
-- converts to, `none` if it is not positive
pub record RateLimitResponse : Type 0 where
  pub retry_after : Option ℕ
  pub global : Bool

pub record Attachment : Type 0 where
  pub id : Text
  pub url : Text

pub record Message : Type 0 where
  pub id : Text
  pub channel_id : Text
  pub attachments : List Attachment

-- `Type` is 0 for a text channel and 4 for a category.
pub record Channel : Type 0 where
  pub id : Text
  pub guild_id : Text
  pub name : Text
  pub kind : ℕ
  pub parent_id : Text

pub record Webhook : Type 0 where
  pub id : Text
  pub channel_id : Text
  pub name : Text
  pub token : Text
  pub url : Text

-- the body of a request: the form of an upload, or what the JSON is made of
pub data Body : Type 0 where
  no_body : Body
  upload_form : (content filename : Text) → List ℕ → Body
  category_json : (name : Text) → ℕ → Body
  channel_json : (name topic : Text) → ℕ → (parent : Option Text) → Body
  webhook_json : (name : Text) → Body

pub data Method : Type 0 where
  http_get http_post http_delete : Method

-- `authorization` is the token of the bot that the request carries.
pub record HttpRequest : Type 0 where
  pub method : Method
  pub url : Text
  pub authorization : Option Text
  pub body : Body

-- `body` is what `ReadAll` gives, `cut_short` whether it fails; `retry_header` is the header
-- Retry-After.
pub record Response : Type 0 where
  pub status : ℕ
  pub retry_header : Text
  pub body : List ℕ
  pub cut_short : Bool

-- `send` is `Do` and the reading of the body, `none` if `Do` fails. `cancelled` is the context,
-- `random n` is `rand.Intn(n)`. A decoder gives what it has filled in, and whether it succeeded.
pub record Web (W : Type 0) : Type 0 where
  pub send : HttpRequest → W → Option Response × W
  pub cancelled : W → Bool
  pub now : W → ℕ
  pub sleep : ℕ → W → W
  pub random : ℕ → W → ℕ × W
  pub valid_url : Text → Bool
  pub float_seconds : Text → Option ℕ
  pub read_limit : List ℕ → RateLimitResponse
  pub read_message : List ℕ → Message × Bool
  pub read_messages : List ℕ → List Message × Bool
  pub read_channel : List ℕ → Channel × Bool
  pub read_channels : List ℕ → List Channel × Bool
  pub read_webhook : List ℕ → Webhook × Bool
  pub read_webhooks : List ℕ → List Webhook × Bool

-- What the program relies on of Go's clock: it does not go back, and a sleep lasts at least as long as
-- it is told.
pub record IsClock {W : Type 0} (web : Web W) : Type 0 where
  pub sleeps : (d : ℕ) (w : W) → web.now w + d ≤ web.now (web.sleep d w)
  pub sends : (r : HttpRequest) (w : W) → web.now w ≤ web.now (web.send r w).1
  pub draws : (n : ℕ) (w : W) → web.now w ≤ web.now (web.random n w).1

pub data WebError : Type 0 where
  cancelled bad_request bad_answer no_file not_found no_channel : WebError
  rate_limited gave_up unreachable bad_settings no_base : WebError
  bad_status : ℕ → WebError
  -- a request that could not be made is used all the same, at which the program panics
  nil_request : WebError

abbrev pub millisecond : ℕ
millisecond = 1000 * 1000

abbrev pub second : ℕ
second = 1000 * millisecond

-- `DiscordAPIBase`
abbrev pub api_base : Text
api_base = codes "https://discord.com/api/v10"

-- `MaxRetries`
abbrev pub max_retries : ℕ
max_retries = 5
