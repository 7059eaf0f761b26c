-- ===== src/Base/Dict.antt =====
-- Go maps with text keys as association lists.
use mathlib.Core.Path.{◌≡◌, refl}
use mathlib.Core.Bool.{Bool, false, ◌||◌}
use mathlib.Core.Option.{Option, none, some}
use mathlib.Core.List.{List, [], ◌∷◌, ◌++◌}
use native.Mathlib.Omega.{arith}
use discord_free_cloud.Base.Tests.{if◌then◌else◌, bytes_eq, bytes_eq_iff}
use discord_free_cloud.Base.Labels.{Text}

-- whether a text is in a list
unfoldable pub has : Text → List Text → Bool
has k [] = false
has k (j ∷ js) = bytes_eq j k || has k js

pub has-append : (k : Text) (xs ys : List Text) → has k (xs ++ ys) ≡ (has k xs || has k ys)
unfolding has
has-append k [] ys = refl
has-append k (x ∷ xs) ys = ground (arith, has-append k xs ys)

abbrev pub AllDistinct : List Text → Type 0
AllDistinct [] = Unit {0}
AllDistinct (k ∷ ks) = (has k ks ≡ false) × AllDistinct ks

module _ {ℓ} {V : Type ℓ} where
  unfoldable pub lookup : Text → List (Text × V) → Option V
  lookup key [] = none
  lookup key ((other, value) ∷ rest) = if bytes_eq other key then some value else lookup key rest

  -- `m[key] = value`: an entry that is there is overwritten in place
  unfoldable pub insert : Text → V → List (Text × V) → List (Text × V)
  insert key value [] = (key, value) ∷ []
  insert key value ((other, old) ∷ rest) =
      if bytes_eq other key then (other, value) ∷ rest else (other, old) ∷ insert key value rest

  -- `delete`: every entry of the key, of which a map built by `insert` has one at most
  unfoldable pub remove : Text → List (Text × V) → List (Text × V)
  remove key [] = []
  remove key ((other, old) ∷ rest) =
      if bytes_eq other key then remove key rest else (other, old) ∷ remove key rest

  pub lookup-insert :
      (key asked : Text) (value : V) (dict : List (Text × V))
      → lookup asked (insert key value dict)
        ≡ (if bytes_eq key asked then some value else lookup asked dict)
  unfolding lookup insert
  lookup-insert key asked value [] = refl
  lookup-insert key asked value ((other, old) ∷ rest) = ground (
    arith,
    lookup-insert key asked value rest,
    bytes_eq_iff other asked,
    bytes_eq_iff other key,
    bytes_eq_iff key asked,
  )

  pub lookup-remove :
      (key asked : Text) (dict : List (Text × V))
      → lookup asked (remove key dict) ≡ (if bytes_eq key asked then none else lookup asked dict)
  unfolding lookup remove
  lookup-remove key asked [] = ground arith
  lookup-remove key asked ((other, old) ∷ rest) = ground (
    arith,
    lookup-remove key asked rest,
    bytes_eq_iff other asked,
    bytes_eq_iff other key,
    bytes_eq_iff key asked,
  )
