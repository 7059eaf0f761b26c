-- ===== src/Files.antt =====
-- internal/server/qol.go: what the listing of the drive says of its files, and the handlers that show
-- a file and its parts.
pub mod Listing
pub mod Moves
pub mod Places
pub mod Parents
pub mod Moved
pub mod Batch
mod Tests
use discord_free_cloud.Base.{
  ℕ, zero, suc, ◌+◌, List, [], ◌∷◌, ◌++◌, Bool, true, false, ◌&&◌, ◌||◌, not, Option, some, none,
  Result, ok, err, ltb, leb, ◌==◌, if◌then◌else◌, length, map, Text, codes, bytes_eq, lookup, has,
}
use discord_free_cloud.Db.{
  FileRecord, ChunkRecord, JobRecord, ChunkStatus, completed, pending, Store, DbError,
}
use discord_free_cloud.Db.Chunks.{is_completed}
use discord_free_cloud.Db.Counts.{get_active_jobs, get_all_chunks_for_file}
use discord_free_cloud.Db.Files.{get_file}
use discord_free_cloud.Db.Health.{
  ChunkHealth, Tally, empty_tally, bulk_chunk_health, put_guild, add_to_set, same_index, healthy,
  partial_parts, no_parts,
}
use discord_free_cloud.Db.Rows.{order_by, select}
use discord_free_cloud.Pool.{atoi, number_of}

-- What a page shows of a part.
pub record ChunkPart : Type 0 where
  pub index : ℕ
  pub chunk_part_size : ℕ
  pub copies : ℕ
  pub servers : ℕ
  pub status : ChunkStatus

-- `health` and `uploading` are left out of a folder.
pub record FileView : Type 0 where
  pub file : FileRecord
  pub health : Option ChunkHealth
  pub uploading : Bool
  pub parts : List ChunkPart

rows_or_none : Result DbError (List ChunkRecord) → List ChunkRecord
rows_or_none (err e) = []
rows_or_none (ok rows) = rows

-- the body of the loop of `fileHealth` over the rows
unfoldable pub count_row : Tally → ChunkRecord → Tally
unfolding add_to_set is_completed
count_row t c =
    let seen = record t { seen_parts = add_to_set same_index c.chunk_index t.seen_parts } in
    if is_completed c.status
    then record seen {
      stored_count = seen.stored_count + 1;
      stored_parts = add_to_set same_index c.chunk_index seen.stored_parts;
      guilds =
          if bytes_eq c.guild_id []
          then seen.guilds
          else add_to_set bytes_eq c.guild_id seen.guilds;
    }
    else seen

unfoldable pub count_rows : Tally → List ChunkRecord → Tally
unfolding count_row
count_rows t [] = t
count_rows t (c ∷ cs) = count_rows (count_row t c) cs

-- what `fileHealth` returns behind its loop: the status is set, and set again
unfoldable pub counted_health : Tally → ChunkHealth
counted_health t =
    let stored = length t.stored_parts in
    let status = if ltb stored (length t.seen_parts) then partial_parts else healthy in
    record {
      attachments = t.stored_count;
      parts = length t.seen_parts;
      servers = length t.guilds;
      health = if stored == 0 then no_parts else status;
    }

unfoldable pub row_health : List ChunkRecord → ChunkHealth
unfolding count_rows counted_health
row_health [] = record { attachments = 0; parts = 0; servers = 0; health = no_parts }
row_health (c ∷ cs) = counted_health (count_rows empty_tally (c ∷ cs))

unfoldable pub file_health : Text → Store → ChunkHealth × Store
unfolding get_all_chunks_for_file rows_or_none row_health
file_health file_id s =
    let rows = get_all_chunks_for_file file_id s in (row_health (rows_or_none rows.0), rows.1)

-- a part while its rows are gathered
pub record PartEntry : Type 0 where
  pub part : ChunkPart
  pub part_guilds : List Text

new_entry : ChunkRecord → PartEntry
new_entry c = record {
  part = record {
    index = c.chunk_index;
    chunk_part_size = c.chunk_size;
    copies = 0;
    servers = 0;
    status = pending;
  };
  part_guilds = [];
}

-- a row of the part is seen
seen_row : ChunkRecord → PartEntry → PartEntry
unfolding put_guild is_completed
seen_row c e =
    if is_completed c.status
    then record {
      part = record e.part {
        copies = e.part.copies + 1;
        status = completed;
        chunk_part_size = if ltb 0 c.chunk_size then c.chunk_size else e.part.chunk_part_size;
      };
      part_guilds = put_guild c.guild_id e.part_guilds;
    }
    else e

-- the entries of the parts, in the order in which they are first seen
unfoldable pub note_row : List PartEntry → ChunkRecord → List PartEntry
unfolding seen_row new_entry
note_row [] c = seen_row c (new_entry c) ∷ []
note_row (e ∷ es) c =
    let rest = note_row es c in
    if e.part.index == c.chunk_index then seen_row c e ∷ es else e ∷ rest

note_rows : List PartEntry → List ChunkRecord → List PartEntry
unfolding note_row
note_rows es [] = es
note_rows es (c ∷ cs) = note_rows (note_row es c) cs

finished_part : PartEntry → ChunkPart
finished_part e = record e.part { servers = length e.part_guilds }

pub file_parts_breakdown : Text → Store → List ChunkPart × Store
unfolding get_all_chunks_for_file rows_or_none note_rows finished_part order_by
file_parts_breakdown file_id s =
    let rows = get_all_chunks_for_file file_id s in
    (
      map finished_part
          (order_by (λ a b. leb a.part.index b.part.index) (note_rows [] (rows_or_none rows.0))),
      rows.1,
    )

unfoldable pub file_ids : List FileRecord → List Text
file_ids [] = []
file_ids (f ∷ fs) = let ids = file_ids fs in if f.is_dir then ids else f.id ∷ ids

-- the files that are being uploaded
unfoldable pub upload_ids : Result DbError (List JobRecord) → List Text
unfolding select
upload_ids (err e) = []
upload_ids (ok jobs) = map (λ j. j.file_id) (select (λ j. bytes_eq j.kind (codes "UPLOAD")) jobs)

unfoldable pub map_or_none : Result DbError (List (Text × ChunkHealth)) → List (Text × ChunkHealth)
map_or_none (err e) = []
map_or_none (ok healths) = healths

-- the health from the bulk query, else from a query for the file
unfoldable pub health_for : List (Text × ChunkHealth) → Text → Store → ChunkHealth × Store
unfolding lookup file_health
health_for healths file_id s = elim (lookup file_id healths) [
  | some h ↦ (h, s)
  | none ↦ file_health file_id s
]

unfoldable pub file_view : ChunkHealth → List Text → FileRecord → FileView
unfolding has
file_view h uploads f = record {
  file = f;
  health = some h;
  uploading = has f.id uploads;
  parts = [];
}

unfoldable pub folder_view : FileRecord → FileView
folder_view f = record { file = f; health = none; uploading = false; parts = [] }

unfoldable pub views :
    List (Text × ChunkHealth) → List Text → List FileRecord → Store → List FileView × Store
unfolding health_for file_view folder_view
views healths uploads [] s = ([], s)
views healths uploads (f ∷ fs) s = elim f.is_dir [
  | true ↦ let (vs, s1) = views healths uploads fs s in (folder_view f ∷ vs, s1)
  | false ↦
      let (h, s1) = health_for healths f.id s in
      let (vs, s2) = views healths uploads fs s1 in (file_view h uploads f ∷ vs, s2)
]

unfoldable pub after_jobs :
    List FileRecord
    → List (Text × ChunkHealth)
    → Result DbError (List JobRecord) × Store
    → List FileView × Store
unfolding upload_ids views
after_jobs files healths jobs = views healths (upload_ids jobs.0) files jobs.1

-- A bulk query that fails counts as one that finds nothing.
unfoldable pub after_bulk :
    List FileRecord → Result DbError (List (Text × ChunkHealth)) × Store → List FileView × Store
unfolding after_jobs get_active_jobs map_or_none
after_bulk files health = after_jobs files (map_or_none health.0) (get_active_jobs health.1)

unfoldable pub decorate : List FileRecord → Store → List FileView × Store
unfolding bulk_chunk_health after_bulk file_ids
decorate files s = after_bulk files (bulk_chunk_health (file_ids files) s)

-- what a handler answers: an error with its status, or a view, or the address to go to
pub data FileAnswer : Type 0 where
  refused : ℕ → FileAnswer
  shown : List FileView → FileAnswer
  redirected : Text → FileAnswer

showing_parts : List ChunkPart → FileView → FileView
showing_parts ps v = record v { parts = ps }

show_details : Text → Result DbError FileRecord × Store → FileAnswer × Store
unfolding decorate file_parts_breakdown showing_parts
show_details id (err e, s) = (refused 404, s)
show_details id (ok f, s) =
    let (vs, s1) = decorate (f ∷ []) s in
    elim f.is_dir [
      | true ↦ (shown vs, s1)
      | false ↦
          let (ps, s2) = file_parts_breakdown f.id s1 in (shown (map (showing_parts ps) vs), s2)
    ]

-- `is_get` is the test of the method.
pub handle_file_details : (is_get : Bool) → (file_id : Text) → Store → FileAnswer × Store
unfolding show_details get_file
handle_file_details is_get file_id s =
    if not is_get
    then (refused 405, s)
    else if bytes_eq file_id []
    then (refused 400, s)
    else show_details file_id (get_file file_id s)

-- the address of the first stored copy of a part
address_of_part : ℕ → List ChunkRecord → Option Text
unfolding is_completed
address_of_part index [] = none
address_of_part index (c ∷ cs) =
    let found = address_of_part index cs in
    if (c.chunk_index == index) && (is_completed c.status && not (bytes_eq c.attachment_url []))
    then some c.attachment_url
    else found

zero_only : Option ℕ → Option ℕ
zero_only (some zero) = some zero
zero_only _ = none

-- `strconv.Atoi`, without the negative numbers
part_index : Text → Option ℕ
unfolding number_of zero_only atoi
part_index [] = none
part_index (c ∷ cs) = if c == 45 then zero_only (number_of cs) else atoi (c ∷ cs)

redirect_to : Option Text → FileAnswer
redirect_to none = refused 404
redirect_to (some url) = redirected url

pub handle_file_raw_chunk :
    (is_get : Bool) → (file_id chunk_index : Text) → Store → FileAnswer × Store
unfolding get_all_chunks_for_file rows_or_none address_of_part redirect_to part_index
handle_file_raw_chunk is_get file_id chunk_index s =
    if not is_get
    then (refused 405, s)
    else if bytes_eq file_id [] || bytes_eq chunk_index []
    then (refused 400, s)
    else elim (part_index chunk_index) [
      | none ↦ (refused 400, s)
      | some index ↦
          let rows = get_all_chunks_for_file file_id s in
          (redirect_to (address_of_part index (rows_or_none rows.0)), rows.1)
    ]
