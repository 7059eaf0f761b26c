-- ===== src/Sending/Tests.antt =====
-- internal/uploader/uploader.go: an upload of one part, from the reading of the part to the record of
-- where it went.
use discord_free_cloud.Base.{
  ℕ, ◌+◌, ◌≡◌, refl, List, [], ◌∷◌, true, false, some, none, slice, Text, codes, inl, replicate,
}
use discord_free_cloud.Aead.Toy.{toy}
use discord_free_cloud.Db.{Store, pending}
use discord_free_cloud.Db.Samples.{file, job, row, shelf}
use discord_free_cloud.Sending.{
  PartWorkItem, UploadApi, UploadResult, ReadResult, Sending, reading, Reach, begin, later, take,
  work, begun, worked,
}
use discord_free_cloud.Sending.Truth.{IsReadable, AreTrue}
use discord_free_cloud.Sending.Runs.{IsReported, Reach-AreTrue}
use discord_free_cloud.Stream.{worker_limit}
use discord_free_cloud.Db.Chunks.{is_completed}

abbrev same_text : List ℕ → Text
same_text bytes = bytes

abbrev content : List ℕ
content = 5 ∷ 6 ∷ []

abbrev posted : UploadResult
posted = record {
  channel_id = codes "x";
  message_id = codes "m";
  attachment_id = codes "t";
  attachment_url = codes "u";
}

abbrev accepting : UploadApi (Unit {0})
accepting = record { upload_chunk = λ channel webhook index payload w. (some posted, w) }

abbrev local_file : (offset size : ℕ) → ReadResult
local_file offset size = record { bytes = slice content offset (offset + size); failed = false }

abbrev key : List ℕ
key = replicate 32 7

abbrev item : PartWorkItem
item = record { chunk = row (codes "a") pending; webhook = codes "h"; guild_id = codes "g" }

abbrev store : Store
store = shelf (row (codes "a") pending ∷ [])

abbrev State : Type 0
State = Sending accepting toy same_text local_file job file key

abbrev start : State
start = begun accepting toy same_text local_file job file key 1 (item ∷ []) tt store

abbrev started_item : State
started_item = record start { queue = []; idle = 0; busy = reading item ∷ [] }

abbrev read : State
read = worked accepting toy same_text local_file job file key none (reading item) [] started_item

reached : Reach accepting toy same_text local_file job file key start read
unfolding begun worker_limit
reached = later (later begin (take item [] 0 refl refl)) (work [] [] (reading item) none refl)

readable : IsReadable content local_file
readable offset size = inl refl

Reach-AreTrue_example :
    AreTrue accepting toy same_text local_file job file key content read.store.chunks
    × IsReported accepting toy same_text local_file job file key content read
unfolding is_completed
Reach-AreTrue_example =
    Reach-AreTrue accepting toy same_text local_file job file key content 1 (item ∷ []) tt store
      read readable ((λ e f. absurd (let no_end : false ≡ true = e in cc)), tt)
      (((λ h. refl), tt), tt) reached
