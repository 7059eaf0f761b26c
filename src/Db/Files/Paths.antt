-- ===== src/Db/Files/Paths.antt =====
-- internal/db/db.go: the table `files` is a map from paths to rows.
use discord_free_cloud.Base.{
  none, ◌≡◌, refl, sym, ap, List, [], ◌∷◌, true, false, Result, ok, err, if◌then◌else◌, Text,
  bytes_eq, bytes_eq_iff, arith, Bool-cases, inl, inr,
}
use discord_free_cloud.Db.{FileRecord, Store, DbError, constraint_violated}
use discord_free_cloud.Db.Faults.{exec-ok, later}
use discord_free_cloud.Db.Files.{
  first_file, overwritten, has_path, has_id, overwrite, inserted, append_file, upsert_rows,
  with_files, upsert_file,
}

-- the row under a path
abbrev pub row_at : Text → List FileRecord → Result DbError FileRecord
row_at q = first_file (λ f. bytes_eq f.path q)

-- The row that an upsert of `f` leaves under its path, column by column: what comes from `f`, and what
-- comes from the old row, if the path had one.
abbrev pub upserted : FileRecord → Result DbError FileRecord → FileRecord
upserted f (ok old) = record {
  id = old.id;
  parent_id = f.parent_id;
  name = f.name;
  path = old.path;
  size = f.size;
  is_dir = f.is_dir;
  mod_time = f.mod_time;
  sha256 = f.sha256;
  mime_type = f.mime_type;
  created_at = old.created_at;
  favorite = old.favorite;
  trashed_at = old.trashed_at;
}
upserted f (err e) = record {
  id = f.id;
  parent_id = f.parent_id;
  name = f.name;
  path = f.path;
  size = f.size;
  is_dir = f.is_dir;
  mod_time = f.mod_time;
  sha256 = f.sha256;
  mime_type = f.mime_type;
  created_at = f.created_at;
  favorite = false;
  trashed_at = none;
}

row_at-overwrite_other :
    (f : FileRecord) (q : Text) (files : List FileRecord)
    → bytes_eq f.path q ≡ false
    → row_at q (overwrite f files) ≡ row_at q files
unfolding overwrite first_file overwritten
row_at-overwrite_other f q [] other = refl
row_at-overwrite_other f q (g ∷ gs) other = ground (
  arith,
  bytes_eq_iff g.path f.path,
  bytes_eq_iff g.path q,
  bytes_eq_iff f.path q,
  row_at-overwrite_other f q gs other,
)

row_at-overwrite :
    (f : FileRecord) (files : List FileRecord)
    → has_path f.path files ≡ true
    → row_at f.path (overwrite f files) ≡ ok (upserted f (row_at f.path files))
unfolding overwrite first_file has_path overwritten
row_at-overwrite f [] h = cc
row_at-overwrite f (g ∷ gs) h = elim (Bool-cases (bytes_eq g.path f.path)) [
  | inl same ↦ rw (same, same)
  | inr other ↦ rw (other, other) (row_at-overwrite f gs (rw other at h))
]

row_at-append_file :
    (f : FileRecord) (q : Text) (files : List FileRecord)
    → has_path f.path files ≡ false
    → row_at q (append_file files (inserted f))
      ≡ (if bytes_eq f.path q then ok (upserted f (row_at f.path files)) else row_at q files)
unfolding append_file first_file has_path inserted
row_at-append_file f q [] h = ground arith
row_at-append_file f q (g ∷ gs) h = ground (
  arith,
  bytes_eq_iff g.path f.path,
  bytes_eq_iff g.path q,
  bytes_eq_iff f.path q,
  row_at-append_file f q gs,
)

row_at-upsert_rows :
    (f : FileRecord) (q : Text) (files after : List FileRecord)
    → upsert_rows f files ≡ ok after
    → row_at q after
      ≡ (if bytes_eq f.path q then ok (upserted f (row_at f.path files)) else row_at q files)
unfolding upsert_rows
row_at-upsert_rows f q files after h = elim (Bool-cases (has_path f.path files)) [
  | inl known ↦
      let same : overwrite f files ≡ after =
        (let h' : ok (overwrite f files) ≡ ok after = rw known at h in cc) in
      rw (sym same) (elim (Bool-cases (bytes_eq f.path q)) [
        | inl here ↦
            let e : f.path ≡ q = (bytes_eq_iff f.path q).0 here in
            rw (here, sym e) (row_at-overwrite f files known)
        | inr other ↦ rw other (row_at-overwrite_other f q files other)
      ])
  | inr fresh ↦ elim (Bool-cases (has_id f.id files)) [
    | inl taken ↦
        absurd (let h' : err constraint_violated ≡ ok after = rw (fresh, taken) at h in cc)
    | inr free ↦
        let same : append_file files (inserted f) ≡ after =
          (let h' : ok (append_file files (inserted f)) ≡ ok after = rw (fresh, free) at h in cc) in
        rw (sym same) (row_at-append_file f q files fresh)
  ]
]

with_files-ok :
    (s s1 : Store) (r : Result DbError (List FileRecord)) → with_files s r ≡ ok s1 → r ≡ ok s1.files
unfolding with_files
with_files-ok s s1 (ok files) h =
    let e : record s { files = files } ≡ s1 = (cc) in ap (λ (t : Store). ok t.files) e
with_files-ok s s1 (err e) h = absurd (cc)

-- After an upsert that has succeeded, the path of the file holds a row with the parent, the name, the
-- size, the kind, the time, the hash and the type of the file: under the id, the time of creation and
-- the marks of the old row where the path had one, and else with those of the file and no mark. Every
-- other path holds what it held.
pub row_at-upsert_file :
    (f : FileRecord) (q : Text) (s s1 : Store)
    → upsert_file f s ≡ (ok tt, s1)
    → row_at q s1.files
      ≡ (if bytes_eq f.path q then ok (upserted f (row_at f.path s.files)) else row_at q s.files)
unfolding upsert_file
row_at-upsert_file f q s s1 h =
    let (left, done) = exec-ok (λ t. with_files t (upsert_rows f t.files)) s s1 h in
    row_at-upsert_rows f q s.files s1.files
      (with_files-ok (later s left) s1 (upsert_rows f s.files) done)
