-- ===== src/Upload.antt =====
-- internal/uploader/uploader.go: how `UploadFile` cuts a file into parts and plans a row of `chunks`
-- for each part on each server. The ceiling of the quotient is exact here; the floating-point
-- quotient of the source has the same ceiling for every file of less than 2^52 bytes. Fresh ids, the
-- time and the random start of the rotation are fields of the placement.
pub mod Tiling
mod Tests
use discord_free_cloud.Base.{
  ℕ, zero, suc, ◌+◌, ◌-◌, ◌*◌, ◌/◌, ◌%◌, List, [], ◌∷◌, ◌++◌, Bool, true, false, Option, some, none,
  length, ltb, ◌==◌, if◌then◌else◌, get_elem?, Text,
}
use discord_free_cloud.Db.{ChunkRecord, pending}

-- A server that takes a copy of the file: `serverChannelSet`, the channels by their ids.
pub record Placement : Type 0 where
  pub job_id : Text
  pub file_id : Text
  pub guild_id : Text
  pub channels : List Text
  pub rot_start : ℕ
  pub part_id : ℕ → Text
  pub now : ℕ

unfoldable pub total_chunks : (chunk_size file_size : ℕ) → ℕ
total_chunks chunk_size file_size =
    let n = (file_size + chunk_size - 1) / chunk_size in if n == 0 then 1 else n

unfoldable pub part_offset : (chunk_size i : ℕ) → ℕ
part_offset chunk_size i = i * chunk_size

unfoldable pub part_size : (chunk_size file_size i : ℕ) → ℕ
unfolding part_offset
part_size chunk_size file_size i =
    if ltb file_size (part_offset chunk_size i + chunk_size)
    then file_size - part_offset chunk_size i
    else chunk_size

-- `chList[(rotStart+i)%len(chList)]`; `none` is an index out of range
pub channel_of : Placement → ℕ → Option Text
channel_of p i = get_elem? p.channels ((p.rot_start + i) % length p.channels)

or_empty : Option Text → Text
or_empty none = []
or_empty (some t) = t

unfoldable pub part_row : Placement → (chunk_size file_size i : ℕ) → ChunkRecord
unfolding or_empty
part_row p chunk_size file_size i = record {
  id = p.part_id i;
  job_id = p.job_id;
  file_id = p.file_id;
  chunk_index = i;
  byte_offset = part_offset chunk_size i;
  chunk_size = part_size chunk_size file_size i;
  sha256 = [];
  guild_id = p.guild_id;
  channel_id = or_empty (channel_of p i);
  message_id = [];
  attachment_id = [];
  attachment_url = [];
  status = pending;
  retry_count = 0;
  created_at = p.now;
  completed_at = none;
}

-- the loop over the parts from part `i` on, `n` of them
unfoldable pub part_rows : Placement → (chunk_size file_size i n : ℕ) → List ChunkRecord
unfolding part_row
part_rows p chunk_size file_size i zero = []
part_rows p chunk_size file_size i (suc n) =
    part_row p chunk_size file_size i ∷ part_rows p chunk_size file_size (suc i) n

-- the parts of one server
unfoldable pub server_rows : Placement → (chunk_size file_size : ℕ) → List ChunkRecord
unfolding part_rows total_chunks
server_rows p chunk_size file_size =
    if length p.channels == 0
    then []
    else part_rows p chunk_size file_size 0 (total_chunks chunk_size file_size)

-- `pendingChunks`
pub pending_chunks : (chunk_size file_size : ℕ) → List Placement → List ChunkRecord
unfolding server_rows
pending_chunks chunk_size file_size [] = []
pending_chunks chunk_size file_size (p ∷ ps) =
    server_rows p chunk_size file_size ++ pending_chunks chunk_size file_size ps

-- `totalWorkItems`
pub total_work_items : (chunk_size file_size : ℕ) → List Placement → ℕ
unfolding total_chunks
total_work_items chunk_size file_size [] = 0
total_work_items chunk_size file_size (p ∷ ps) =
    (if length p.channels == 0 then 0 else total_chunks chunk_size file_size)
    + total_work_items chunk_size file_size ps
