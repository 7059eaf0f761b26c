-- ===== src/Files/Moved.antt =====
-- internal/server/qol.go: where a file is behind a move that has been done.
use discord_free_cloud.Base.{
  List, [], ◌∷◌, ◌++◌, Bool, true, false, ◌&&◌, Option, some, none, Result, ok, err, ◌≡◌, refl, sym,
  ◌∙◌, Bool-cases, inl, inr, Text, bytes_eq, codes,
}
use discord_free_cloud.Db.{FileRecord, Store, DbError, constraint_violated}
use discord_free_cloud.Db.Faults.{later, exec-ok}
use discord_free_cloud.Db.Files.{get_file, get_file_by_path}
use discord_free_cloud.Db.Marks.{
  rename_file, update_file_parent, update_file, with_file_id, blocking,
}
use discord_free_cloud.Db.Rows.{update_where}
use discord_free_cloud.Files.Moves.{
  Filepath, MoveAnswer, answer_of, rename_descendants, write_rename, write_parent, moved_to,
  on_file, handle_file_move, destination, taken_by_live, is_into_itself, joined_below, moved,
  bad_id, not_a_file, bad_name, name_taken, no_folder, into_itself, unknown_action, not_written,
  updated, renamed, nothing_to_do,
}

-- Every row of the id has a property.
abbrev pub WhereId : Text → (FileRecord → Type 0) → List FileRecord → Type 0
WhereId id P [] = Unit {0}
WhereId id P (g ∷ gs) = (bytes_eq g.id id ≡ true → P g) × WhereId id P gs

update_where-sets :
    (id : Text) (P : FileRecord → Type 0) (f : FileRecord → FileRecord) (files : List FileRecord)
    → ((g : FileRecord) → P (f g))
    → WhereId id P (update_where (with_file_id id) f files)
unfolding update_where with_file_id
update_where-sets id P f [] sets = tt
update_where-sets id P f (g ∷ gs) sets = elim (Bool-cases (bytes_eq g.id id)) [
  | inl e ↦ rw e (λ h. sets g, update_where-sets id P f gs sets)
  | inr e ↦
      rw e (λ h. absurd (let no : true ≡ false = sym h ∙ e in cc), update_where-sets id P f gs sets)
]

update_where-keeps :
    (id : Text) (P Q : FileRecord → Type 0) (f : FileRecord → FileRecord) (files : List FileRecord)
    → WhereId id P files
    → ((g : FileRecord) → P g → Q (f g))
    → WhereId id Q (update_where (with_file_id id) f files)
unfolding update_where with_file_id
update_where-keeps id P Q f [] v keeps = tt
update_where-keeps id P Q f (g ∷ gs) (v, vs) keeps = elim (Bool-cases (bytes_eq g.id id)) [
  | inl e ↦ rw e (λ h. keeps g (v e), update_where-keeps id P Q f gs vs keeps)
  | inr e ↦ rw e (
    λ h. absurd (let no : true ≡ false = sym h ∙ e in cc),
    update_where-keeps id P Q f gs vs keeps,
  )
]

-- where a rename has put a file
abbrev pub Named : Text → Text → FileRecord → Type 0
Named name path g = (g.name ≡ name) × (g.path ≡ path)

done_files :
    (P : List FileRecord → Type 0) (a b : Store)
    → P a.files
    → Path (Result DbError Store) (ok a) (ok b)
    → P b.files
done_files P a b v e = let same : a ≡ b = cc in rw (← same) v

rename_done :
    (id name path : Text) (t t1 : Store) (blocked_by : Option FileRecord)
    → elim blocked_by as (λ _. Result DbError Store) [
      | some other ↦ err constraint_violated
      | none ↦ ok (update_file id (λ f. record f { name = name; path = path; mod_time = t.now }) t)
    ]
      ≡ ok t1
    → WhereId id (Named name path) t1.files
unfolding update_file
rename_done id name path t t1 none h =
    done_files (WhereId id (Named name path)) _ t1
      (update_where-sets id (Named name path) _ t.files (λ g. (refl, refl))) h
rename_done id name path t t1 (some other) h = absurd (cc)

rename_file-Named :
    (id name path : Text) (s s1 : Store)
    → rename_file id name path s ≡ (ok tt, s1)
    → WhereId id (Named name path) s1.files
unfolding rename_file
rename_file-Named id name path s s1 h =
    let (left, did) = exec-ok _ s s1 h in
    rename_done id name path (later s left) s1 (blocking id path s.files) did

-- and a change of its parent behind it
abbrev pub Placed : (parent name path : Text) → FileRecord → Type 0
Placed parent name path g = (g.parent_id ≡ parent) × Named name path g

update_file_parent-Placed :
    (id parent name path : Text) (s s1 : Store)
    → WhereId id (Named name path) s.files
    → update_file_parent id parent s ≡ (ok tt, s1)
    → WhereId id (Placed parent name path) s1.files
unfolding update_file_parent update_file
update_file_parent-Placed id parent name path s s1 v h =
    let (left, did) = exec-ok _ s s1 h in
    done_files (WhereId id (Placed parent name path)) _ s1
      (update_where-keeps id (Named name path) (Placed parent name path) _ s.files v
        (λ g named. (refl, named)))
      did

answer_done :
    (r : Result DbError (Unit {0}) × Store)
    → (answer_of moved r).0 ≡ moved
    → r ≡ (ok tt, (answer_of moved r).1)
unfolding answer_of
answer_done (ok tt, s) h = refl
answer_done (err e, s) h = absurd (cc)

module _ (paths : Filepath) (listed_before : Text → Text → Bool) where
  write_parent_done :
      (id parent : Text) (r : MoveAnswer × Store)
      → (write_parent paths listed_before id parent r).0 ≡ moved
      → (r.0 ≡ moved)
        × (update_file_parent id parent r.1
            ≡ (ok tt, (write_parent paths listed_before id parent r).1))
  unfolding write_parent
  write_parent_done id parent (moved, s) h = (refl, answer_done (update_file_parent id parent s) h)
  write_parent_done id parent (bad_id, s) h = absurd (cc)
  write_parent_done id parent (not_a_file, s) h = absurd (cc)
  write_parent_done id parent (bad_name, s) h = absurd (cc)
  write_parent_done id parent (name_taken, s) h = absurd (cc)
  write_parent_done id parent (no_folder, s) h = absurd (cc)
  write_parent_done id parent (into_itself, s) h = absurd (cc)
  write_parent_done id parent (unknown_action, s) h = absurd (cc)
  write_parent_done id parent (not_written, s) h = absurd (cc)
  write_parent_done id parent (updated, s) h = absurd (cc)
  write_parent_done id parent (renamed, s) h = absurd (cc)
  write_parent_done id parent (nothing_to_do, s) h = absurd (cc)

  write_rename_done :
      (path_of : Text → Text) (f : FileRecord) (name path : Text) (s : Store)
      → (write_rename paths listed_before moved path_of f name path s).0 ≡ moved
      → WhereId f.id
          (Named name path)
          (write_rename paths listed_before moved path_of f name path s).1.files
  unfolding write_rename
  write_rename_done path_of f name path s h =
      rename_file-Named f.id name path (rename_descendants paths listed_before path_of f s) _
        (answer_done _ h)

  moved_to-Placed :
      (f : FileRecord) (parent dest : Text) (s : Store)
      → (moved_to paths listed_before f parent (some dest, s)).0 ≡ moved
      → WhereId f.id
          (Placed parent f.name (paths.join dest f.name))
          (moved_to paths listed_before f parent (some dest, s)).1.files
  unfolding moved_to
  moved_to-Placed f parent dest s =
      let path = paths.join dest f.name in
      let live = get_file_by_path path s in
      let below = joined_below paths listed_before path (f.path ++ codes "/") in
      elim (Bool-cases (taken_by_live f.id live.0)) [
        | inl a ↦ rw (a, moved_to) (λ h. absurd (cc))
        | inr a ↦ elim (Bool-cases (bytes_eq path f.path && bytes_eq parent f.parent_id)) [
          | inl b ↦ rw (a, b, moved_to) (λ h. absurd (cc))
          | inr b ↦ elim (Bool-cases (is_into_itself paths listed_before f parent path)) [
            | inl c ↦ rw (a, b, c, moved_to) (λ h. absurd (cc))
            | inr c ↦
                rw (a, b, c, moved_to)
                  (λ h.
                    let written =
                      write_rename paths listed_before moved below f f.name path live.1 in
                    let (renamed_it, done) = write_parent_done f.id parent written h in
                    update_file_parent-Placed f.id parent f.name path written.1 _
                      (write_rename_done below f f.name path live.1 renamed_it) done)
          ]
        ]
      ]

  on_destination :
      (f : FileRecord) (parent : Text) (d : Option Text × Store)
      → (moved_to paths listed_before f parent d).0 ≡ moved
      → (dest : Text) × ((d.0 ≡ some dest)
          × WhereId f.id
              (Placed parent f.name (paths.join dest f.name))
              (moved_to paths listed_before f parent d).1.files)
  unfolding moved_to
  on_destination f parent (none, s) h = absurd (cc)
  on_destination f parent (some dest, s) h = (dest, (refl, moved_to-Placed f parent dest s h))

  on_found :
      (parent : Text) (r : Result DbError FileRecord × Store)
      → let out =
          on_file paths listed_before
            (λ f s1.
              moved_to paths listed_before f parent (destination paths listed_before parent s1))
            r in
        out.0 ≡ moved
        → (f : FileRecord) × ((r.0 ≡ ok f)
            × ((dest : Text) × (((destination paths listed_before parent r.1).0 ≡ some dest)
                  × WhereId f.id (Placed parent f.name (paths.join dest f.name)) out.1.files)))
  unfolding on_file
  on_found parent (err e, s) h = absurd (cc)
  on_found parent (ok f, s) h =
      (f, (refl, on_destination f parent (destination paths listed_before parent s) h))

  -- A move that answers that it is done has found the file and the folder that it goes to, and the row of
  -- the file's id has the folder for its parent, its old name, and that name in the folder for its path.
  pub handle_file_move-Placed :
      (id parent : Text) (s : Store)
      → (handle_file_move paths listed_before id parent s).0 ≡ moved
      → (f : FileRecord) × (((get_file id s).0 ≡ ok f)
          × ((dest : Text) × (((destination paths listed_before parent (get_file id s).1).0
                  ≡ some dest)
                × WhereId f.id
                    (Placed parent f.name (paths.join dest f.name))
                    (handle_file_move paths listed_before id parent s).1.files)))
  unfolding handle_file_move
  handle_file_move-Placed id parent s = elim (Bool-cases (bytes_eq id [])) [
    | inl e ↦ rw (e, handle_file_move) (λ h. absurd (cc))
    | inr e ↦ rw (e, handle_file_move) (on_found parent (get_file id s))
  ]
