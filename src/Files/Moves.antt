-- ===== src/Files/Moves.antt =====
-- internal/server/qol.go: the handlers that rename and move a file or a folder. The functions of Go's
-- package `filepath` and the order in which the catalog lists all files are parameters.
use discord_free_cloud.Base.{
  List, [], ◌∷◌, ◌++◌, Bool, true, false, ◌&&◌, ◌||◌, not, Option, some, none, Result, ok, err,
  if◌then◌else◌, drop, length, ◌==◌, map, Text, codes, bytes_eq, trim_space, has_prefix,
}
use discord_free_cloud.Db.{FileRecord, Store, DbError, query}
use discord_free_cloud.Db.Files.{get_file, get_file_by_path}
use discord_free_cloud.Db.Marks.{set_favorite, set_trashed, rename_file, update_file_parent}
use discord_free_cloud.Db.Rows.{order_by}

-- `filepath.Base`, and `filepath.ToSlash` of `filepath.Join`
pub record Filepath : Type 0 where
  pub base : Text → Text
  pub join : Text → Text → Text

pub data MoveAnswer : Type 0 where
  bad_id not_a_file bad_name name_taken no_folder into_itself unknown_action : MoveAnswer
  not_written : MoveAnswer
  updated renamed moved nothing_to_do : MoveAnswer

-- `strings.TrimPrefix`
trim_prefix : Text → Text → Text
unfolding has_prefix
trim_prefix text prefix = if has_prefix text prefix then drop (length prefix) text else text

-- `rebasePath`
unfoldable pub rebase_path : (old_path old_parent new_parent : Text) → Text
unfolding trim_prefix
rebase_path old_path old_parent new_parent = new_parent ++ trim_prefix old_path old_parent

unfoldable pub slashed : Text → Text
slashed = map (λ c. if c == 92 then 47 else c)

-- the names that no file can have
unfoldable pub is_bad_name : Text → Bool
is_bad_name name = (bytes_eq name [] || bytes_eq name (codes ".")) || bytes_eq name (codes "..")

-- whether a path belongs to another file
unfoldable pub taken_by_other : Text → Result DbError FileRecord → Bool
taken_by_other id (err e) = false
taken_by_other id (ok other) = not (bytes_eq other.id id)

-- and to one that is not in the trash
unfoldable pub taken_by_live : Text → Result DbError FileRecord → Bool
taken_by_live id (err e) = false
taken_by_live id (ok other) =
    not (bytes_eq other.id id) && elim other.trashed_at [ none ↦ true | some t ↦ false ]

unfoldable pub all_or_none : Result DbError (List FileRecord) → List FileRecord
all_or_none (err e) = []
all_or_none (ok files) = files

-- The errors of the renames are not looked at.
unfoldable pub rename_below : (Text → Text) → (prefix : Text) → List FileRecord → Store → Store
unfolding rename_file has_prefix
rename_below path_of prefix [] s = s
rename_below path_of prefix (f ∷ fs) s = elim (has_prefix f.path prefix) [
  | false ↦ rename_below path_of prefix fs s
  | true ↦ rename_below path_of prefix fs (rename_file f.id f.name (path_of f.path) s).1
]

unfoldable pub answer_of : MoveAnswer → Result DbError (Unit {0}) × Store → MoveAnswer × Store
answer_of answer (ok tt, s) = (answer, s)
answer_of answer (err e, s) = (not_written, s)

module _ (paths : Filepath) (listed_before : Text → Text → Bool) where
  unfoldable pub get_all_files : Store → Result DbError (List FileRecord) × Store
  unfolding order_by
  get_all_files = query λ s. ok (order_by (λ f g. listed_before f.path g.path) s.files)

  -- the files below a folder, under the new path of the folder
  unfoldable pub rename_descendants : (path_of : Text → Text) → FileRecord → Store → Store
  unfolding get_all_files all_or_none rename_below
  rename_descendants path_of f s = elim f.is_dir [
    | false ↦ s
    | true ↦
        let all = get_all_files s in
        rename_below path_of (f.path ++ codes "/") (all_or_none all.0) all.1
  ]

  -- the path of the folder that a file is in
  unfoldable pub parent_path : FileRecord → Store → Text × Store
  unfolding get_file
  parent_path f s =
      if bytes_eq f.parent_id []
      then ([], s)
      else let p = get_file f.parent_id s in
        (elim p.0 [ err e ↦ [] | ok folder ↦ folder.path ], p.1)

  unfoldable pub joined_below : (new_path old_prefix path : Text) → Text
  unfolding trim_prefix
  joined_below new_path old_prefix path = paths.join new_path (trim_prefix path old_prefix)

  -- what a rename writes: the files below, then the file
  unfoldable pub write_rename :
      MoveAnswer
      → (path_of : Text → Text) → FileRecord
      → (name path : Text) → Store
      → MoveAnswer × Store
  unfolding rename_descendants answer_of rename_file
  write_rename answer path_of f name path s =
      answer_of answer (rename_file f.id name path (rename_descendants path_of f s))

  unfoldable pub renamed_by :
      MoveAnswer
      → (below : FileRecord → Text → Text → Text) → FileRecord
      → (value : Text) → Store
      → MoveAnswer × Store
  unfolding slashed is_bad_name parent_path taken_by_other write_rename get_file_by_path trim_space
  renamed_by answer below f value s =
      let name = paths.base (slashed (trim_space value)) in
      if is_bad_name name
      then (bad_name, s)
      else let parent = parent_path f s in
        let path = paths.join parent.0 name in
        let existing = get_file_by_path path parent.1 in
        if taken_by_other f.id existing.0
        then (name_taken, existing.1)
        else write_rename answer (below f path) f name path existing.1

  -- the path of the destination, the root for no id; `none` for what is no folder
  unfoldable pub destination : Text → Store → Option Text × Store
  unfolding get_file
  destination id s =
      if bytes_eq id []
      then (some [], s)
      else let dest = get_file id s in
        (elim dest.0 [ err e ↦ none | ok d ↦ if d.is_dir then some d.path else none ], dest.1)

  -- whether a folder would come to stand in itself
  unfoldable pub is_into_itself : FileRecord → (destination_id path : Text) → Bool
  unfolding has_prefix
  is_into_itself f destination_id path =
      f.is_dir && (bytes_eq destination_id f.id || has_prefix path (f.path ++ codes "/"))

  unfoldable pub moved_by_update :
      FileRecord → (value : Text) → Option Text × Store → MoveAnswer × Store
  unfolding taken_by_other is_into_itself write_rename joined_below get_file_by_path
  moved_by_update f value (none, s) = (no_folder, s)
  moved_by_update f value (some dest, s) =
      let path = paths.join dest f.name in
      let existing = get_file_by_path path s in
      if taken_by_other f.id existing.0
      then (name_taken, existing.1)
      else if is_into_itself f value path
      then (into_itself, existing.1)
      else write_rename updated (joined_below path (f.path ++ codes "/")) f f.name path existing.1

  unfoldable pub updated_by : FileRecord → (action value : Text) → Store → MoveAnswer × Store
  unfolding renamed_by rebase_path destination moved_by_update answer_of set_favorite set_trashed
  updated_by f action value s =
      if bytes_eq action (codes "rename")
      then renamed_by updated (λ g new path. rebase_path path g.path new) f value s
      else if bytes_eq action (codes "move")
      then moved_by_update f value (destination value s)
      else if bytes_eq action (codes "favorite")
      then answer_of updated (set_favorite f.id true s)
      else if bytes_eq action (codes "unfavorite")
      then answer_of updated (set_favorite f.id false s)
      else if bytes_eq action (codes "trash")
      then answer_of updated (set_trashed f.id true s)
      else if bytes_eq action (codes "restore")
      then answer_of updated (set_trashed f.id false s)
      else (unknown_action, s)

  -- behind the look for the file
  unfoldable pub on_file :
      (FileRecord → Store → MoveAnswer × Store)
      → Result DbError FileRecord × Store
      → MoveAnswer × Store
  on_file act (err e, s) = (not_a_file, s)
  on_file act (ok f, s) = act f s

  -- The requests are decoded ones, behind the test of the method; an id that is missing is empty.
  unfoldable pub handle_file_update : (id action value : Text) → Store → MoveAnswer × Store
  unfolding on_file updated_by get_file
  handle_file_update id action value s =
      if bytes_eq id []
      then (bad_id, s)
      else on_file (λ f. updated_by f action value) (get_file id s)

  unfoldable pub handle_file_rename : (id name : Text) → Store → MoveAnswer × Store
  unfolding on_file renamed_by joined_below get_file
  handle_file_rename id name s =
      if bytes_eq id [] || bytes_eq name []
      then (bad_id, s)
      else on_file
          (λ f. renamed_by renamed (λ g new. joined_below new (g.path ++ codes "/")) f name)
          (get_file id s)

  -- the parent of the file that was written
  unfoldable pub write_parent : (id parent : Text) → MoveAnswer × Store → MoveAnswer × Store
  unfolding answer_of update_file_parent
  write_parent id parent (moved, s) = answer_of moved (update_file_parent id parent s)
  write_parent id parent (answer, s) = (answer, s)

  unfoldable pub moved_to : FileRecord → (parent : Text) → Option Text × Store → MoveAnswer × Store
  unfolding taken_by_live is_into_itself write_rename write_parent joined_below get_file_by_path
  moved_to f parent (none, s) = (no_folder, s)
  moved_to f parent (some dest, s) =
      let path = paths.join dest f.name in
      let live = get_file_by_path path s in
      if taken_by_live f.id live.0
      then (name_taken, live.1)
      else if bytes_eq path f.path && bytes_eq parent f.parent_id
      then (nothing_to_do, live.1)
      else if is_into_itself f parent path
      then (into_itself, live.1)
      else write_parent f.id parent
          (write_rename moved (joined_below path (f.path ++ codes "/")) f f.name path live.1)

  unfoldable pub handle_file_move : (id parent : Text) → Store → MoveAnswer × Store
  unfolding on_file moved_to destination get_file
  handle_file_move id parent s =
      if bytes_eq id []
      then (bad_id, s)
      else on_file (λ f s1. moved_to f parent (destination parent s1)) (get_file id s)
