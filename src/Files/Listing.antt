-- ===== src/Files/Listing.antt =====
-- internal/server/qol.go: the listing of the drive against the rows of the catalog.
use discord_free_cloud.Base.{List, true, ok, ◌≡◌, if◌then◌else◌, Text, has}
use discord_free_cloud.Db.{FileRecord, Store}
use discord_free_cloud.Db.Counts.{newest_job}
use discord_free_cloud.Db.Health.{ChunkHealth, empty_tally, tally_rows, health_of}
use discord_free_cloud.Db.Health.Bulk.{of_file}
use discord_free_cloud.Db.Jobs.{is_active}
use discord_free_cloud.Db.Rows.{order_by, select}
use discord_free_cloud.Files.{FileView, upload_ids, health_for, file_view, folder_view}

-- the health of a file by its rows, whatever their order
abbrev pub health_in : Text → Store → ChunkHealth
health_in id s = health_of (tally_rows empty_tally (of_file id s.chunks))

-- the files with an active upload
abbrev pub uploads_in : Store → List Text
uploads_in s = upload_ids (ok (order_by newest_job (select (λ j. is_active j.status) s.jobs)))

abbrev pub view_in : Store → FileRecord → FileView
view_in s f = if f.is_dir then folder_view f else file_view (health_in f.id s) (uploads_in s) f

abbrev ServedBy : List (Text × ChunkHealth) → Store → List Text → Type 0
ServedBy healths s ids =
    (id : Text) → has id ids ≡ true → health_for healths id s ≡ (health_in id s, s)
