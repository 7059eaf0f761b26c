-- ===== src/Files/Places.antt =====
-- internal/db/qol.go: the statements that write a file leave it in the folder that it is in.
use discord_free_cloud.Base.{
  List, [], ◌∷◌, Bool, true, false, Option, some, none, Result, ok, err, ◌≡◌, refl, sym, ap, ◌∙◌,
  Bool-cases, inl, inr, map, Text,
}
use discord_free_cloud.Db.{FileRecord, Store, DbError, constraint_violated, query, exec}
use discord_free_cloud.Db.Faults.{later, exec-ok, exec-err}
use discord_free_cloud.Db.Marks.{
  set_favorite, set_trashed, rename_file, update_file, with_file_id, blocking,
}
use discord_free_cloud.Db.Rows.{update_where}

-- the files of the catalog, each with the folder that it is in
abbrev pub place_of : FileRecord → Text × Text
place_of f = (f.id, f.parent_id)

abbrev pub places_in : Store → List (Text × Text)
places_in s = map place_of s.files

query-places_faults {ℓ} :
    {A : Type ℓ} (f : Store → Result DbError A) (s : Store) (faults : List Bool)
    → s.faults ≡ faults
    → places_in (query f s).1 ≡ places_in s
unfolding query
query-places_faults f s [] e = rw e refl
query-places_faults f s (true ∷ left) e = rw e refl
query-places_faults f s (false ∷ left) e = rw e refl

pub query-places_in {ℓ} :
    {A : Type ℓ} (f : Store → Result DbError A) (s : Store) → places_in (query f s).1 ≡ places_in s
query-places_in f s = query-places_faults f s s.faults refl

exec-places_cases :
    (f : Store → Result DbError Store) (s s1 : Store) (r : Result DbError (Unit {0}))
    → ((t t1 : Store) → f t ≡ ok t1 → places_in t1 ≡ places_in t)
    → exec f s ≡ (r, s1)
    → places_in s1 ≡ places_in s
exec-places_cases f s s1 (ok tt) keeps e =
    let (left, did) = exec-ok f s s1 e in keeps (later s left) s1 did
exec-places_cases f s s1 (err fault) keeps e =
    let (left, same) = exec-err f s s1 fault e in ap (λ (t : Store). places_in t) same

exec-places_in :
    (f : Store → Result DbError Store) (s : Store)
    → ((t t1 : Store) → f t ≡ ok t1 → places_in t1 ≡ places_in t)
    → places_in (exec f s).1 ≡ places_in s
exec-places_in f s keeps = exec-places_cases f s (exec f s).1 (exec f s).0 keeps refl

-- a change of rows that leaves the ids and the parents
update_where-places_in :
    (p : FileRecord → Bool) (f : FileRecord → FileRecord) (files : List FileRecord)
    → ((g : FileRecord) → (f g).id ≡ g.id)
    → ((g : FileRecord) → (f g).parent_id ≡ g.parent_id)
    → map place_of (update_where p f files) ≡ map place_of files
unfolding update_where
update_where-places_in p f [] ids parents = refl
update_where-places_in p f (g ∷ gs) ids parents =
    let rest = update_where-places_in p f gs ids parents in
    elim (Bool-cases (p g)) [
      | inl e ↦ rw (e, ids g, parents g, rest) refl
      | inr e ↦ rw (e, rest) refl
    ]

update_file-places_in :
    (id : Text) (f : FileRecord → FileRecord) (s : Store)
    → ((g : FileRecord) → (f g).id ≡ g.id)
    → ((g : FileRecord) → (f g).parent_id ≡ g.parent_id)
    → places_in (update_file id f s) ≡ places_in s
unfolding update_file
update_file-places_in id f s ids parents =
    update_where-places_in (with_file_id id) f s.files ids parents

done_places :
    (a b : Store) (t : Store)
    → places_in a ≡ places_in t
    → Path (Result DbError Store) (ok a) (ok b)
    → places_in b ≡ places_in t
done_places a b t same e = let eq : a ≡ b = cc in sym (ap (λ (u : Store). places_in u) eq) ∙ same

rename_cases :
    (id name path : Text) (t t1 : Store) (blocked_by : Option FileRecord)
    → elim blocked_by as (λ _. Result DbError Store) [
      | some other ↦ err constraint_violated
      | none ↦ ok (update_file id (λ f. record f { name = name; path = path; mod_time = t.now }) t)
    ]
      ≡ ok t1
    → places_in t1 ≡ places_in t
rename_cases id name path t t1 none h =
    done_places _ t1 t (update_file-places_in id _ t (λ g. refl) (λ g. refl)) h
rename_cases id name path t t1 (some other) h = absurd (cc)

pub rename_file-places_in :
    (id name path : Text) (s : Store) → places_in (rename_file id name path s).1 ≡ places_in s
unfolding rename_file
rename_file-places_in id name path s =
    exec-places_in _ s (λ t t1 h. rename_cases id name path t t1 (blocking id path t.files) h)

pub set_favorite-places_in :
    (id : Text) (b : Bool) (s : Store) → places_in (set_favorite id b s).1 ≡ places_in s
unfolding set_favorite
set_favorite-places_in id b s =
    exec-places_in _ s
      (λ t t1 h. done_places _ t1 t (update_file-places_in id _ t (λ g. refl) (λ g. refl)) h)

pub set_trashed-places_in :
    (id : Text) (b : Bool) (s : Store) → places_in (set_trashed id b s).1 ≡ places_in s
unfolding set_trashed
set_trashed-places_in id b s =
    exec-places_in _ s
      (λ t t1 h. done_places _ t1 t (update_file-places_in id _ t (λ g. refl) (λ g. refl)) h)
