-- ===== src/Discord/Samples.antt =====
-- A network for the tests of the client: it answers from a list.
use discord_free_cloud.Base.{
  ℕ, ◌+◌, ◌*◌, List, [], ◌∷◌, true, false, Option, some, none, Text, codes, arith,
}
use discord_free_cloud.Discord.{
  Response, Web, IsClock, RateLimitResponse, Message, Channel, Webhook, second,
}
use discord_free_cloud.Discord.Retry.{Limits}

-- the time, and the answers to come
abbrev pub Scripted : Type 0
Scripted = ℕ × List (Option Response)

abbrev pub first_answer : List (Option Response) → Option Response × List (Option Response)
first_answer [] = (none, [])
first_answer (r ∷ rest) = (r, rest)

abbrev pub no_channel_at_all : Channel
no_channel_at_all = record { id = []; guild_id = []; name = []; kind = 0; parent_id = [] }

abbrev pub no_webhook : Webhook
no_webhook = record { id = []; channel_id = []; name = []; token = []; url = [] }

-- a rate limit of two seconds for all calls if the body says so
abbrev pub limit_of : List ℕ → RateLimitResponse
limit_of [] = record { retry_after = none; global = false }
limit_of (b ∷ rest) = record { retry_after = some (2 * second); global = true }

abbrev pub message_of : List ℕ → Message
message_of body = record {
  id = body;
  channel_id = [];
  attachments = (record { id = body; url = body }) ∷ [];
}

abbrev pub scripted : Web Scripted
scripted = record {
  send = λ r w. let a = first_answer w.1 in (a.0, (w.0 + 1, a.1));
  cancelled = λ w. false;
  now = λ w. w.0;
  sleep = λ d w. (w.0 + d, w.1);
  random = λ n w. (0, w);
  valid_url = λ u. true;
  float_seconds = λ t. none;
  read_limit = limit_of;
  read_message = λ b. (message_of b, true);
  read_messages = λ b. (message_of b ∷ [], true);
  read_channel = λ b. (record no_channel_at_all { id = b }, true);
  read_channels = λ b. ([], true);
  read_webhook = λ b. (record no_webhook { id = b }, true);
  read_webhooks = λ b. ([], true);
}

pub scripted-IsClock : IsClock scripted
scripted-IsClock = record {
  sleeps = λ d w. omega arith;
  sends = λ r w. omega arith;
  draws = λ n w. omega arith;
}

abbrev pub answer : ℕ → Text → Option Response
answer status body =
    some (record { status = status; retry_header = []; body = body; cut_short = false })

abbrev pub unlimited : Limits
unlimited = record { global_lock = 0; limiters = [] }

-- a rate limit, an error of the server, and then an answer
abbrev pub bumpy : ℕ → Scripted
bumpy status = (0, answer 429 (codes "wait") ∷ answer 503 [] ∷ answer status (codes "m7") ∷ [])

abbrev pub told_to_wait : Response
told_to_wait = record { status = 429; retry_header = []; body = codes "wait"; cut_short = false }
