-- ===== src/Discord/Calls.antt =====
-- internal/discord/client.go: UploadChunk, AttachmentURL, DownloadChunk, DeleteMessage and
-- DeleteChannel.
use discord_free_cloud.Base.{
  ℕ, List, [], ◌∷◌, ◌++◌, Bool, true, false, ◌&&◌, ◌||◌, Option, some, none, Result, ok, err, ltb,
  leb, ◌==◌, if◌then◌else◌, Text, codes, bytes_eq, has_char,
}
use discord_free_cloud.Discord.{
  Attachment, Message, upload_form, no_body, Method, http_get, http_post, http_delete, HttpRequest,
  Response, Web, WebError, bad_answer, no_file, not_found, no_channel, rate_limited, gave_up,
  bad_status, api_base, max_retries,
}
use discord_free_cloud.Discord.Retry.{Limits, Route, retry, limited_try, free_try}

pub record UploadChunkResult : Type 0 where
  pub message_id : Text
  pub attachment_id : Text
  pub attachment_url : Text
  pub channel_id : Text

unfoldable pub empty : Text → Bool
empty t = bytes_eq t []

-- behind an answer that is no success: an error of the server is tried again, another is final
unfoldable pub other_status {ℓ} : {A : Type ℓ} → ℕ → Option (Result WebError A)
other_status status = if leb 500 status then none else some (err (bad_status status))

unfoldable pub channel_url : Text → Text
channel_url channel = api_base ++ (codes "/channels/" ++ channel)

unfoldable pub message_url : (channel message : Text) → Text
unfolding channel_url
message_url channel message = channel_url channel ++ (codes "/messages/" ++ message)

-- the address that an upload posts to
upload_url : (channel webhook : Text) → Text
unfolding empty channel_url
upload_url channel webhook =
    if empty webhook
    then channel_url channel ++ codes "/messages"
    else if has_char 63 webhook
    then webhook ++ codes "&wait=true"
    else webhook ++ codes "?wait=true"

pub upload_request : (bot channel webhook : Text) → (filename content : Text) → List ℕ → HttpRequest
unfolding empty upload_url
upload_request bot channel webhook filename content payload = record {
  method = http_post;
  url = upload_url channel webhook;
  authorization = if empty webhook then some bot else none;
  body = upload_form content filename payload;
}

-- a request that carries the token of the bot and no body
unfoldable pub plain_request : Method → (bot url : Text) → HttpRequest
plain_request method bot url = record {
  method = method;
  url = url;
  authorization = some bot;
  body = no_body;
}

-- what `AttachmentURL` asks for: the message, or the newest one of the channel
attachment_request : (bot channel message : Text) → HttpRequest
unfolding empty message_url channel_url plain_request
attachment_request bot channel message = plain_request http_get bot (
    if empty message
    then channel_url channel ++ codes "/messages?limit=1"
    else message_url channel message)

download_request : Text → HttpRequest
download_request url = record { method = http_get; url = url; authorization = none; body = no_body }

-- what `UploadChunk` makes of the message that the answer holds
unfoldable pub uploaded : (channel : Text) → Message × Bool → Result WebError UploadChunkResult
unfolding empty
uploaded channel (m, false) = err bad_answer
uploaded channel (m, true) = elim m.attachments [
  | [] ↦ err no_file
  | a ∷ rest ↦ ok (record {
    message_id = m.id;
    attachment_id = a.id;
    attachment_url = a.url;
    channel_id = if empty m.channel_id then channel else m.channel_id;
  })
]

-- the attachment with the id, or any if no id is given
matching : Text → List Attachment → Option Text
unfolding empty
matching id [] = none
matching id (a ∷ rest) =
    let found = matching id rest in if empty id || bytes_eq a.id id then some a.url else found

-- the address of the attachment, else of the first one
unfoldable pub attachment_of : Text → List Attachment → Result WebError Text
unfolding matching
attachment_of id [] = err no_file
attachment_of id (a ∷ rest) = elim (matching id (a ∷ rest)) [ none ↦ ok a.url | some url ↦ ok url ]

from_message : Text → Message × Bool → Result WebError Text
unfolding attachment_of
from_message id (m, false) = err bad_answer
from_message id (m, true) = attachment_of id m.attachments

newest_message : Text → List Message × Bool → Result WebError Text
unfolding attachment_of
newest_message id (ms, false) = err bad_answer
newest_message id ([], true) = err not_found
newest_message id (m ∷ ms, true) = attachment_of id m.attachments

-- the answers that say that something is deleted, also that it was not there
unfoldable pub is_deleted : ℕ → Bool
is_deleted status = (status == 204 || status == 200) || status == 404

module _ {W : Type 0} (web : Web W) where
  unfoldable pub upload_answer :
      (channel : Text) → Response → Option (Result WebError UploadChunkResult)
  unfolding uploaded other_status
  upload_answer channel r =
      if leb 200 r.status && ltb r.status 300
      then some (uploaded channel (web.read_message r.body))
      else other_status r.status

  unfoldable pub attachment_answer : (message id : Text) → Response → Option (Result WebError Text)
  unfolding from_message newest_message other_status empty
  attachment_answer message id r =
      if r.status == 404
      then some (err not_found)
      else if r.status == 200
      then some (
          if empty message
          then newest_message id (web.read_messages r.body)
          else from_message id (web.read_message r.body))
      else other_status r.status

  unfoldable pub download_answer : Response → Option (Result WebError (List ℕ))
  unfolding other_status
  download_answer r =
      if r.status == 200
      then some (if r.cut_short then err bad_answer else ok r.body)
      else if r.status == 429
      then none
      else other_status r.status

  unfoldable pub delete_answer : Response → Option (Result WebError (Unit {0}))
  unfolding is_deleted other_status
  delete_answer r = if is_deleted r.status then some (ok tt) else other_status r.status

  -- What the calls are, as routes; the key of an upload is its webhook, if it has one.
  unfoldable pub upload_route :
      (bot channel webhook filename content : Text) → List ℕ → Route UploadChunkResult
  unfolding upload_request upload_answer empty
  upload_route bot channel webhook filename content payload = record {
    key = if empty webhook then channel else webhook;
    request = upload_request bot channel webhook filename content payload;
    reads_header = true;
    jitter = 200;
    pause = 500;
    answer = upload_answer channel;
  }

  unfoldable pub attachment_route : (bot channel message id : Text) → Route Text
  unfolding attachment_request attachment_answer
  attachment_route bot channel message id = record {
    key = channel;
    request = attachment_request bot channel message;
    reads_header = false;
    jitter = 150;
    pause = 300;
    answer = attachment_answer message id;
  }

  unfoldable pub download_route : Text → Route (List ℕ)
  unfolding download_request download_answer
  download_route url = record {
    key = [];
    request = download_request url;
    reads_header = false;
    jitter = 0;
    pause = 300;
    answer = download_answer;
  }

  -- the route of a deletion of what stands at an address, under the key of its channel
  unfoldable pub delete_route : (bot channel url : Text) → Route (Unit {0})
  unfolding plain_request delete_answer
  delete_route bot channel url = record {
    key = channel;
    request = plain_request http_delete bot url;
    reads_header = true;
    jitter = 200;
    pause = 300;
    answer = delete_answer;
  }

  unfoldable pub upload_chunk :
      (bot channel webhook filename content : Text)
      → List ℕ
      → Limits
      → W
      → (Result WebError UploadChunkResult × Limits) × W
  unfolding upload_route
  upload_chunk bot channel webhook filename content payload =
      retry web (limited_try web (upload_route bot channel webhook filename content payload))
        rate_limited max_retries 0

  unfoldable pub attachment_url :
      (bot channel message id : Text) → Limits → W → (Result WebError Text × Limits) × W
  unfolding attachment_route empty
  attachment_url bot channel message id l w =
      if empty channel
      then ((err no_channel, l), w)
      else retry web (limited_try web (attachment_route bot channel message id)) rate_limited
          max_retries 0 l w

  unfoldable pub download_chunk : Text → Limits → W → (Result WebError (List ℕ) × Limits) × W
  unfolding download_route
  download_chunk url = retry web (free_try web (download_route url)) gave_up max_retries 0

  unfoldable pub delete_message :
      (bot channel message : Text) → Limits → W → (Result WebError (Unit {0}) × Limits) × W
  unfolding delete_route message_url empty
  delete_message bot channel message l w =
      if empty channel || empty message
      then ((ok tt, l), w)
      else retry web (limited_try web (delete_route bot channel (message_url channel message)))
          gave_up max_retries 0 l w

  unfoldable pub delete_channel :
      (bot channel : Text) → Limits → W → (Result WebError (Unit {0}) × Limits) × W
  unfolding delete_route channel_url empty
  delete_channel bot channel l w =
      if empty channel
      then ((ok tt, l), w)
      else retry web (limited_try web (delete_route bot channel (channel_url channel))) gave_up
          max_retries 0 l w
