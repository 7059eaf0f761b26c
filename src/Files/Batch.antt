-- ===== src/Files/Batch.antt =====
-- internal/server/qol.go: the handlers that mark files, one or many. A request that cannot be decoded is
-- `none`; what the broadcast tells the pages is left out.
use discord_free_cloud.Base.{
  ℕ, List, [], ◌∷◌, ◌++◌, Bool, true, false, Option, some, none, Result, ok, err, if◌then◌else◌,
  Text, bytes_eq, codes, length, ◌==◌,
}
use discord_free_cloud.Db.{Store, DbError}
use discord_free_cloud.Db.Marks.{set_favorite, set_trashed}

-- the status of the answer, and whether the pages are told
abbrev Answered : Type 0
Answered = ℕ × Bool

-- The errors are not looked at.
mark_all : (Text → Store → Result DbError (Unit {0}) × Store) → List Text → Store → Store
mark_all mark [] s = s
mark_all mark (id ∷ ids) s = mark_all mark ids (mark id s).1

batch_action : (action : Text) → List Text → Store → Answered × Store
unfolding mark_all set_favorite set_trashed
batch_action action ids s =
    if bytes_eq action (codes "favorite")
    then ((200, true), mark_all (λ id. set_favorite id true) ids s)
    else if bytes_eq action (codes "unfavorite")
    then ((200, true), mark_all (λ id. set_favorite id false) ids s)
    else if bytes_eq action (codes "trash")
    then ((200, true), mark_all (λ id. set_trashed id true) ids s)
    else if bytes_eq action (codes "restore")
    then ((200, true), mark_all (λ id. set_trashed id false) ids s)
    else ((400, false), s)

pub handle_files_batch : (is_post : Bool) → Option (List Text × Text) → Store → Answered × Store
unfolding batch_action
handle_files_batch false request s = ((405, false), s)
handle_files_batch true none s = ((400, false), s)
handle_files_batch true (some (ids, action)) s =
    if length ids == 0 then ((400, false), s) else batch_action action ids s

-- the ids of a request, the single one last; an error of the decoder leaves what it has filled in
all_ids : (id : Text) → List Text → List Text
all_ids id ids = if bytes_eq id [] then ids else ids ++ (id ∷ [])

pub handle_file_trash : (id : Text) → List Text → Store → Answered × Store
unfolding all_ids mark_all set_trashed
handle_file_trash id ids s = ((200, true), mark_all (λ i. set_trashed i true) (all_ids id ids) s)

pub handle_file_restore : (id : Text) → List Text → Store → Answered × Store
unfolding all_ids mark_all set_trashed
handle_file_restore id ids s = ((200, true), mark_all (λ i. set_trashed i false) (all_ids id ids) s)

favorite_answer : Result DbError (Unit {0}) × Store → Answered × Store
favorite_answer (ok tt, s) = ((200, true), s)
favorite_answer (err e, s) = ((500, false), s)

pub handle_file_favorite : Option (Text × Bool) → Store → Answered × Store
unfolding favorite_answer set_favorite
handle_file_favorite none s = ((400, false), s)
handle_file_favorite (some (id, value)) s =
    if bytes_eq id [] then ((400, false), s) else favorite_answer (set_favorite id value s)
