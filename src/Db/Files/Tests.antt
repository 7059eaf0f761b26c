-- ===== src/Db/Files/Tests.antt =====
-- internal/db/db.go at concrete inputs: a file that is stored again under its path.
use discord_free_cloud.Base.{◌≡◌, refl, [], ◌∷◌, ok, if◌then◌else◌, codes, bytes_eq}
use discord_free_cloud.Db.{Store, exec, committed}
use discord_free_cloud.Db.Samples.{file, shelf}
use discord_free_cloud.Db.Files.{
  upsert_file, upsert_rows, has_path, has_id, overwrite, overwritten, with_files,
}
use discord_free_cloud.Db.Files.Paths.{row_at, upserted, row_at-upsert_file}

abbrev kept : Store
kept = (upsert_file (record file { id = codes "g"; size = 7 }) (shelf [])).1

row_at-upsert_file_example : row_at (codes "/n") kept.files ≡ (
    if bytes_eq (codes "/n") (codes "/n")
    then ok (upserted (record file { id = codes "g"; size = 7 }) (row_at (codes "/n") (file ∷ [])))
    else row_at (codes "/n") (file ∷ []))
unfolding upsert_file upsert_rows has_path has_id overwrite overwritten with_files exec committed
    bytes_eq
row_at-upsert_file_example =
    row_at-upsert_file (record file { id = codes "g"; size = 7 }) (codes "/n") (shelf []) kept refl
