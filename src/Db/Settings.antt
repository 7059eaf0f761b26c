-- ===== src/Db/Settings.antt =====
-- internal/db/db.go: the table `settings`, a map from keys to values.
use mathlib.Core.Path.{subst}
use discord_free_cloud.Base.{
  ◌≡◌, refl, sym, ap, Bool, true, List, [], ◌∷◌, Option, some, none, Result, ok, err, Text, lookup,
  insert,
}
use discord_free_cloud.Db.{Store, DbError, no_rows, query, exec, committed}
use discord_free_cloud.Db.Faults.{later}

pub value_or_none : Option Text → Result DbError Text
value_or_none none = err no_rows
value_or_none (some v) = ok v

unfoldable pub get_setting : Text → Store → Result DbError Text × Store
unfolding value_or_none lookup query
get_setting key = query λ s. value_or_none (lookup key s.settings)

unfoldable pub set_setting : Text → Text → Store → Result DbError (Unit {0}) × Store
unfolding insert
set_setting key value = exec λ s. ok (record s { settings = insert key value s.settings })

-- `v, _ := GetSetting(key)`: an error gives the empty text
unfoldable pub value_of : Result DbError Text → Text
value_of (ok v) = v
value_of (err e) = []

unfoldable pub setting_or_empty : Text → Store → Text × Store
unfolding value_of get_setting
setting_or_empty key s = let r = get_setting key s in (value_of r.0, r.1)

-- the value of a setting, empty if it has none
abbrev pub stored : Text → Store → Text
stored key s = value_of (value_or_none (lookup key s.settings))

pub setting_or_empty-online :
    (key : Text) (s : Store) → s.faults ≡ [] → setting_or_empty key s ≡ (stored key s, s)
unfolding setting_or_empty
setting_or_empty-online key s e =
    let p : later s [] ≡ s = ap (later s) (sym e) in
    subst (λ (t : Store). setting_or_empty key t ≡ (stored key t, t)) p refl

-- A statement that fails gives the empty text, whatever is stored.
pub setting_or_empty-offline :
    (key : Text) (s : Store) (left : List Bool)
    → s.faults ≡ true ∷ left
    → setting_or_empty key s ≡ ([], later s left)
unfolding setting_or_empty
setting_or_empty-offline key s left e =
    let p : later s (true ∷ left) ≡ s = ap (later s) (sym e) in
    subst (λ (t : Store). setting_or_empty key t ≡ ([], later s left)) p refl

pub set_setting-online :
    (key value : Text) (s : Store)
    → s.faults ≡ []
    → set_setting key value s ≡ (ok tt, record s { settings = insert key value s.settings })
unfolding set_setting exec committed
set_setting-online key value s e = rw e refl
