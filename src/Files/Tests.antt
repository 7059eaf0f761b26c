-- ===== src/Files/Tests.antt =====
-- internal/server/qol.go: a listing of a folder and of a file that is stored on one server of two.
use discord_free_cloud.Base.{[], ◌∷◌, ◌++◌, ok, Bool, true, some, ◌≡◌, refl, Text, codes, bytes_eq}
use discord_free_cloud.Db.{FileRecord, Store, completed, pending, exec, query}
use discord_free_cloud.Db.Samples.{file, job, row}
use discord_free_cloud.Db.Files.{get_file}
use discord_free_cloud.Files.Moves.{Filepath, handle_file_move, destination}
use discord_free_cloud.Files.Moved.{WhereId, Placed, handle_file_move-Placed}

abbrev folder : FileRecord
folder = record file { id = codes "d"; path = codes "/d"; is_dir = true }

abbrev catalog : Store
catalog = record {
  files = file ∷ folder ∷ [];
  jobs = job ∷ [];
  chunks =
      record (row (codes "c2") completed) { chunk_index = 1; guild_id = codes "g" }
      ∷ record (row (codes "c1") completed) { guild_id = codes "g" }
      ∷ record (row (codes "c3") pending) { guild_id = codes "h" }
      ∷ [];
  settings = [];
  shares = [];
  faults = [];
  now = 7;
}

-- a stand-in for Go's package `filepath`
abbrev plain_paths : Filepath
plain_paths = record { base = λ t. t; join = λ a b. a ++ (codes "/" ++ b) }

abbrev by_any_path : Text → Text → Bool
by_any_path a b = true

handle_file_move-Placed_example :
    (f : FileRecord) × (((get_file (codes "f") catalog).0 ≡ ok f)
      × ((dest : Text) × (((destination plain_paths by_any_path
                (codes "d")
                (get_file (codes "f") catalog).1).0
              ≡ some dest)
            × WhereId f.id
                (Placed (codes "d") f.name (plain_paths.join dest f.name))
                (handle_file_move plain_paths by_any_path
                  (codes "f")
                  (codes "d")
                  catalog).1.files)))
unfolding handle_file_move bytes_eq query exec
handle_file_move-Placed_example =
    handle_file_move-Placed plain_paths by_any_path (codes "f") (codes "d") catalog refl
