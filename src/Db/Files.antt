-- ===== src/Db/Files.antt =====
-- internal/db/db.go: the statements on the table `files`. A path is UNIQUE, an id the primary key.
pub mod Paths
mod Tests
use discord_free_cloud.Base.{
  ℕ, List, [], ◌∷◌, Bool, true, false, ◌||◌, Option, some, none, Result, ok, err, if◌then◌else◌,
  Text, bytes_eq, ◌≡◌, refl, sym, ap, ◌∙◌,
}
use discord_free_cloud.Db.{FileRecord, Store, DbError, no_rows, constraint_violated, query, exec}
use discord_free_cloud.Db.Faults.{exec-chunks}

-- the first row that a WHERE clause selects
unfoldable pub first_file : (FileRecord → Bool) → List FileRecord → Result DbError FileRecord
first_file p [] = err no_rows
first_file p (f ∷ fs) = let rest = first_file p fs in if p f then ok f else rest

unfoldable pub get_file : Text → Store → Result DbError FileRecord × Store
unfolding first_file
get_file id = query λ s. first_file (λ f. bytes_eq f.id id) s.files

unfoldable pub get_file_by_path : Text → Store → Result DbError FileRecord × Store
unfolding first_file
get_file_by_path path = query λ s. first_file (λ f. bytes_eq f.path path) s.files

-- what ON CONFLICT(path) DO UPDATE sets: the id, the time of creation and the marks stay
pub overwritten : FileRecord → FileRecord → FileRecord
overwritten old f = record old {
  parent_id = f.parent_id;
  name = f.name;
  size = f.size;
  is_dir = f.is_dir;
  mod_time = f.mod_time;
  sha256 = f.sha256;
  mime_type = f.mime_type;
}

pub has_path : Text → List FileRecord → Bool
has_path path [] = false
has_path path (f ∷ fs) = bytes_eq f.path path || has_path path fs

pub has_id : Text → List FileRecord → Bool
has_id id [] = false
has_id id (f ∷ fs) = bytes_eq f.id id || has_id id fs

pub overwrite : FileRecord → List FileRecord → List FileRecord
unfolding overwritten
overwrite f [] = []
overwrite f (g ∷ gs) = (if bytes_eq g.path f.path then overwritten g f else g) ∷ overwrite f gs

-- A new row has no mark: `favorite` and `trashed_at` are not among the columns.
pub inserted : FileRecord → FileRecord
inserted f = record f { favorite = false; trashed_at = none }

pub append_file : List FileRecord → FileRecord → List FileRecord
append_file [] f = f ∷ []
append_file (g ∷ gs) f = g ∷ append_file gs f

pub upsert_rows : FileRecord → List FileRecord → Result DbError (List FileRecord)
unfolding has_path has_id overwrite inserted append_file
upsert_rows f files =
    if has_path f.path files
    then ok (overwrite f files)
    else if has_id f.id files
    then err constraint_violated
    else ok (append_file files (inserted f))

with_files : Store → Result DbError (List FileRecord) → Result DbError Store
with_files s (ok files) = ok (record s { files = files })
with_files s (err e) = err e

pub upsert_file : FileRecord → Store → Result DbError (Unit {0}) × Store
unfolding upsert_rows with_files
upsert_file f = exec λ s. with_files s (upsert_rows f s.files)

with_files-chunks :
    (s s1 : Store) (r : Result DbError (List FileRecord))
    → with_files s r ≡ ok s1
    → s1.chunks ≡ s.chunks
unfolding with_files
with_files-chunks s s1 (ok files) h =
    let same : record s { files = files } ≡ s1 = cc in sym (ap (λ (t : Store). t.chunks) same)
with_files-chunks s s1 (err e) h = absurd (cc)

-- A write of a file leaves the rows of the parts alone.
pub upsert_file-chunks : (f : FileRecord) (s : Store) → (upsert_file f s).1.chunks ≡ s.chunks
unfolding upsert_file
upsert_file-chunks f s =
    exec-chunks (λ rows. rows ≡ s.chunks) _ s refl
      (λ t t1 same h. with_files-chunks t t1 _ h ∙ same)
