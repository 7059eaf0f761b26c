-- ===== src/Base.antt =====
-- The names that the other modules share: the libraries' names, passed on, and those of the
-- children (Boolean tests, lists over native numbers, slices, byte order).
mod Tests
mod Lists
mod Slices
mod Results
mod Labels
mod Dict
mod Strings
mod Integers
unfoldable pub use Tests.*
pub use Lists.*
pub use Slices.*
unfoldable pub use Labels.*
unfoldable pub use Dict.*
unfoldable pub use Strings.*
pub use Integers.*
pub use Results.{Result, ok, err, ◌>>=◌, and_on-ok, and_on-cong}
unfoldable pub use Results.{and_on}
pub use Prim.Native.Nat.{
  ℕ, zero, suc, ◌+◌, ◌-◌, ◌*◌, ◌/◌, ◌%◌, ◌^◌, ◌≤◌, ◌<◌, min, max, bit_and, bit_or, bit_xor,
}
pub use mathlib.Core.Path.{◌≡◌, refl, sym, ap, ap₂, ◌∙◌}
pub use mathlib.Core.Logic.{◌≢◌, ◌↔◌, ◌⊎◌, inl, inr}
pub use mathlib.Core.Bool.{Bool, true, false, ◌&&◌, ◌||◌, not}
pub use mathlib.Core.Option.{Option, none, some}
pub use mathlib.Core.List.{List, [], ◌∷◌, ◌++◌, map, append-nil, append_assoc}
pub use native.Mathlib.Omega.{arith}
