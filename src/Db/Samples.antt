-- ===== src/Db/Samples.antt =====
-- internal/db/db.go: rows of the catalog for the tests.
use discord_free_cloud.Base.{List, [], ◌∷◌, false, none, Text, codes}
use discord_free_cloud.Db.{FileRecord, ChunkRecord, JobRecord, Store, active, ChunkStatus}

abbrev pub file : FileRecord
file = record {
  id = codes "f";
  parent_id = [];
  name = codes "n";
  path = codes "/n";
  size = 2;
  is_dir = false;
  mod_time = 0;
  sha256 = [];
  mime_type = [];
  created_at = 0;
  favorite = false;
  trashed_at = none;
}

abbrev pub job : JobRecord
job = record {
  id = codes "j";
  kind = codes "UPLOAD";
  file_id = codes "f";
  file_path = [];
  total_bytes = 2;
  total_chunks = 2;
  completed_chunks = 0;
  status = active;
  created_at = 0;
  completed_at = none;
}

abbrev pub row : Text → ChunkStatus → ChunkRecord
row id status = record {
  id = id;
  job_id = codes "j";
  file_id = codes "f";
  chunk_index = 0;
  byte_offset = 0;
  chunk_size = 2;
  sha256 = [];
  guild_id = [];
  channel_id = [];
  message_id = [];
  attachment_id = [];
  attachment_url = [];
  status = status;
  retry_count = 0;
  created_at = 0;
  completed_at = none;
}

abbrev pub shelf : List ChunkRecord → Store
shelf rows = record {
  files = file ∷ [];
  jobs = job ∷ [];
  chunks = rows;
  settings = [];
  shares = [];
  faults = [];
  now = 0;
}
