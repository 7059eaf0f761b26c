-- ===== src/Db/Marks.antt =====
-- internal/db/qol.go: favorites, the trash, and the moves of a file. A path is UNIQUE.
use discord_free_cloud.Base.{
  ℕ, zero, suc, List, Bool, true, false, ◌&&◌, not, Option, some, none, Result, ok, err, leb,
  if◌then◌else◌, take, ℤ, pos, negsuc, Text, bytes_eq,
}
use discord_free_cloud.Db.{FileRecord, Store, DbError, constraint_violated, query, exec}
use discord_free_cloud.Db.Rows.{select, update_where, order_by, first_row}

unfoldable pub with_file_id : Text → FileRecord → Bool
with_file_id id f = bytes_eq f.id id

is_trashed : FileRecord → Bool
is_trashed f = elim f.trashed_at [ none ↦ false | some t ↦ true ]

-- an UPDATE of the row of an id
unfoldable pub update_file : Text → (FileRecord → FileRecord) → Store → Store
unfolding with_file_id update_where
update_file id f s = record s { files = update_where (with_file_id id) f s.files }

unfoldable pub set_favorite : Text → Bool → Store → Result DbError (Unit {0}) × Store
unfolding update_file
set_favorite id fav = exec λ s. ok (update_file id (λ f. record f { favorite = fav }) s)

unfoldable pub set_trashed : Text → Bool → Store → Result DbError (Unit {0}) × Store
unfolding update_file
set_trashed id trashed =
    exec λ s.
      ok (update_file id (λ f. record f { trashed_at = if trashed then some s.now else none }) s)

-- ORDER BY mod_time DESC, and by the time in the trash
newest_file : FileRecord → FileRecord → Bool
newest_file f g = leb g.mod_time f.mod_time

trashed_last : FileRecord → FileRecord → Bool
trashed_last f g = elim f.trashed_at [
  | none ↦ true
  | some t ↦ elim g.trashed_at [ none ↦ true | some u ↦ leb u t ]
]

pub list_favorites : Store → Result DbError (List FileRecord) × Store
unfolding is_trashed newest_file select order_by
list_favorites =
    query λ s. ok (order_by newest_file (select (λ f. f.favorite && not (is_trashed f)) s.files))

pub list_trash : Store → Result DbError (List FileRecord) × Store
unfolding is_trashed trashed_last select order_by
list_trash = query λ s. ok (order_by trashed_last (select is_trashed s.files))

limit_or_default : ℤ → ℕ
limit_or_default (negsuc n) = 50
limit_or_default (pos zero) = 50
limit_or_default (pos (suc n)) = suc n

pub list_recent : ℤ → Store → Result DbError (List FileRecord) × Store
unfolding is_trashed newest_file select order_by limit_or_default
list_recent limit = query λ s. ok (
    take (limit_or_default limit)
      (order_by newest_file (select (λ f. not (is_trashed f) && not f.is_dir) s.files)))

-- a row of another file with a path, if the file itself is there
unfoldable pub blocking : Text → Text → List FileRecord → Option FileRecord
unfolding with_file_id first_row
blocking id path files = elim (first_row (with_file_id id) files) [
  | none ↦ none
  | some f ↦ first_row (λ g. bytes_eq g.path path && not (bytes_eq g.id id)) files
]

unfoldable pub rename_file : Text → (name path : Text) → Store → Result DbError (Unit {0}) × Store
unfolding update_file blocking
rename_file id name path = exec λ s. elim (blocking id path s.files) [
  | some other ↦ err constraint_violated
  | none ↦ ok (update_file id (λ f. record f { name = name; path = path; mod_time = s.now }) s)
]

unfoldable pub update_file_parent : Text → Text → Store → Result DbError (Unit {0}) × Store
unfolding update_file
update_file_parent id parent_id =
    exec λ s. ok (update_file id (λ f. record f { parent_id = parent_id }) s)
