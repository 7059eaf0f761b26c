-- ===== src/Db/Faults.antt =====
-- internal/db/db.go: what a statement that has returned has seen and done.
use mathlib.Core.Path.{subst}
use discord_free_cloud.Base.{
  ◌⊎◌, inl, inr, ◌≡◌, refl, sym, ap, ◌∙◌, List, [], ◌∷◌, Bool, true, false, Result, ok, err, ◌≢◌,
}
use discord_free_cloud.Db.{ChunkRecord, Store, DbError, no_connection, committed, exec, query}

-- The store that a statement sees: some faults are used up.
abbrev pub later : Store → List Bool → Store
later s faults = record s { faults = faults }

committed-ok : (s s1 : Store) (r : Result DbError Store) → committed s r ≡ (ok tt, s1) → r ≡ ok s1
unfolding committed
committed-ok s s1 (ok s') h = ap ok (ap (λ (t : Result DbError (Unit {0}) × Store). t.1) h)
committed-ok s s1 (err e) h = absurd (cc)

exec-ok_faults :
    (f : Store → Result DbError Store) (s s1 : Store) (faults : List Bool)
    → s.faults ≡ faults
    → exec f s ≡ (ok tt, s1)
    → (left : List Bool) × (f (later s left) ≡ ok s1)
unfolding exec
exec-ok_faults f s s1 [] e h = ([], committed-ok (later s []) s1 (f (later s [])) (rw e at h))
exec-ok_faults f s s1 (true ∷ left) e h =
    absurd (let h' : (err no_connection, later s left) ≡ (ok tt, s1) = rw e at h in cc)
exec-ok_faults f s s1 (false ∷ left) e h =
    (left, committed-ok (later s left) s1 (f (later s left)) (rw e at h))

-- A write that has succeeded has taken effect on the tables as they were.
pub exec-ok :
    (f : Store → Result DbError Store) (s s1 : Store)
    → exec f s ≡ (ok tt, s1)
    → (left : List Bool) × (f (later s left) ≡ ok s1)
exec-ok f s s1 h = exec-ok_faults f s s1 s.faults refl h

committed-err :
    (s s1 : Store) (r : Result DbError Store) (e : DbError) → committed s r ≡ (err e, s1) → s1 ≡ s
unfolding committed
committed-err s s1 (ok s') e h = absurd (cc)
committed-err s s1 (err e') e h = sym (ap (λ (t : Result DbError (Unit {0}) × Store). t.1) h)

exec-err_faults :
    (f : Store → Result DbError Store) (s s1 : Store) (e : DbError) (faults : List Bool)
    → s.faults ≡ faults
    → exec f s ≡ (err e, s1)
    → (left : List Bool) × (s1 ≡ later s left)
unfolding exec
exec-err_faults f s s1 e [] p h = ([], committed-err (later s []) s1 (f (later s [])) e (rw p at h))
exec-err_faults f s s1 e (true ∷ left) p h =
    let h' : (err no_connection, later s left) ≡ (err e, s1) = rw p at h in
    (left, sym (ap (λ (t : Result DbError (Unit {0}) × Store). t.1) h'))
exec-err_faults f s s1 e (false ∷ left) p h =
    (left, committed-err (later s left) s1 (f (later s left)) e (rw p at h))

-- A write that has failed has left the tables alone.
pub exec-err :
    (f : Store → Result DbError Store) (s s1 : Store) (e : DbError)
    → exec f s ≡ (err e, s1)
    → (left : List Bool) × (s1 ≡ later s left)
exec-err f s s1 e h = exec-err_faults f s s1 e s.faults refl h

-- Without faults to come, a write does what its statement does.
pub exec-online :
    (f : Store → Result DbError Store) (s : Store) → s.faults ≡ [] → exec f s ≡ committed s (f s)
unfolding exec
exec-online f s e =
    let p : later s [] ≡ s = ap (later s) (sym e) in
    subst (λ (t : Store). exec f t ≡ committed t (f t)) p refl

refused_cases :
    (f : Store → Result DbError Store) (e : DbError) (s : Store) (r : Result DbError (Unit {0}))
    (s1 : Store)
    → ((t : Store) → f t ≡ err e)
    → exec f s ≡ (r, s1)
    → (r ≢ ok tt) × (s1.chunks ≡ s.chunks)
refused_cases f e s (ok tt) s1 refuses h =
    let (left, done) = exec-ok f s s1 h in
    absurd (let no : err e ≡ ok s1 = sym (refuses (later s left)) ∙ done in cc)
refused_cases f e s (err e') s1 refuses h =
    let (left, same) = exec-err f s s1 e' h in (λ q. cc, ap (λ (t : Store). t.chunks) same)

-- A statement that is refused in every state never succeeds and changes no table.
pub exec-refused :
    (f : Store → Result DbError Store) (e : DbError) (s : Store)
    → ((t : Store) → f t ≡ err e)
    → ((exec f s).0 ≢ ok tt) × ((exec f s).1.chunks ≡ s.chunks)
exec-refused f e s refuses = refused_cases f e s (exec f s).0 (exec f s).1 refuses refl

-- Without faults to come, a read answers by the tables.
pub query-online {ℓ} :
    {A : Type ℓ} (f : Store → Result DbError A) (s : Store) → s.faults ≡ [] → query f s ≡ (f s, s)
unfolding query
query-online f s e =
    let p : later s [] ≡ s = ap (later s) (sym e) in
    subst (λ (t : Store). query f t ≡ (f t, t)) p refl

-- Without faults to come, a write that its statement does not refuse is done.
pub exec-done :
    (f : Store → Result DbError Store) (s s1 : Store)
    → s.faults ≡ []
    → f s ≡ ok s1
    → exec f s ≡ (ok tt, s1)
unfolding committed
exec-done f s s1 e h = exec-online f s e ∙ ap (committed s) h

exec-chunks_cases :
    (P : List ChunkRecord → Type 0) (f : Store → Result DbError Store) (s s1 : Store)
    (r : Result DbError (Unit {0}))
    → P s.chunks
    → ((t t1 : Store) → t.chunks ≡ s.chunks → f t ≡ ok t1 → P t1.chunks)
    → exec f s ≡ (r, s1)
    → P s1.chunks
exec-chunks_cases P f s s1 (ok tt) v h e =
    let (left, did) = exec-ok f s s1 e in h (later s left) s1 refl did
exec-chunks_cases P f s s1 (err fault) v h e =
    let (left, same) = exec-err f s s1 fault e in subst (λ (t : Store). P t.chunks) (sym same) v

-- What a statement keeps of the rows of `chunks`, its failure keeps as well.
pub exec-chunks :
    (P : List ChunkRecord → Type 0) (f : Store → Result DbError Store) (s : Store)
    → P s.chunks
    → ((t t1 : Store) → t.chunks ≡ s.chunks → f t ≡ ok t1 → P t1.chunks)
    → P (exec f s).1.chunks
exec-chunks P f s v h = exec-chunks_cases P f s (exec f s).1 (exec f s).0 v h refl

query-chunks_faults {ℓ} :
    {A : Type ℓ} (f : Store → Result DbError A) (s : Store) (faults : List Bool)
    → s.faults ≡ faults
    → (query f s).1.chunks ≡ s.chunks
unfolding query
query-chunks_faults f s [] e = rw e refl
query-chunks_faults f s (true ∷ left) e = rw e refl
query-chunks_faults f s (false ∷ left) e = rw e refl

-- A read changes no row.
pub query-chunks {ℓ} :
    {A : Type ℓ} (f : Store → Result DbError A) (s : Store) → (query f s).1.chunks ≡ s.chunks
query-chunks f s = query-chunks_faults f s s.faults refl

query-answer_faults {ℓ} :
    {A : Type ℓ} (f : Store → Result DbError A) (s : Store) (faults : List Bool)
    → s.faults ≡ faults
    → ((query f s).0 ≡ err no_connection)
      ⊎ ((left : List Bool) × ((query f s).0 ≡ f (later s left)))
unfolding query
query-answer_faults f s [] e = inr ([], rw e refl)
query-answer_faults f s (true ∷ left) e = inl (rw e refl)
query-answer_faults f s (false ∷ left) e = inr (left, rw e refl)

-- A read fails or answers by the tables.
pub query-answer {ℓ} :
    {A : Type ℓ} (f : Store → Result DbError A) (s : Store)
    → ((query f s).0 ≡ err no_connection)
      ⊎ ((left : List Bool) × ((query f s).0 ≡ f (later s left)))
query-answer f s = query-answer_faults f s s.faults refl
