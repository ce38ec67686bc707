-- ===== src/Base.antt =====
-- The names that all modules share.
mod Tests
mod Lists
mod Octets
mod Loops
mod Integers
mod Members
mod Maps
mod Results
mod Tables
mod Reader
mod Float
unfoldable pub use Tests.*
unfoldable pub use Lists.*
unfoldable pub use Octets.*
unfoldable pub use Loops.*
unfoldable pub use Integers.*
unfoldable pub use Members.*
unfoldable pub use Maps.{
  nat_key, bytes_key, Dict, weight, find, replace, place, assign, find_or, erase, total,
}
unfoldable pub use Results.*
unfoldable pub use Tables.*
unfoldable pub use Reader.*
unfoldable pub use Float.*
pub use Maps.{
  Key, bytes_eq_iff, find-assign, find-assign_self, total-assign, weight-find_or, find_or-assign,
}
pub use Prim.Native.Nat.{ℕ, zero, suc, ◌+◌, ◌-◌, ◌*◌, ◌/◌, ◌%◌, ◌^◌, ◌≤◌, ◌<◌, min, max}
pub use mathlib.Core.Path.{◌≡◌, refl, sym, ap, subst, ◌∙◌}
pub use mathlib.Core.Logic.{◌≢◌, ◌↔◌, ◌⊎◌, inl, inr}
pub use mathlib.Core.Bool.{Bool, true, false, not, ◌&&◌, ◌||◌}
pub use mathlib.Core.Option.{Option, none, some}
pub use mathlib.Core.List.{List, [], ◌∷◌, ◌++◌, map}
pub use native.Mathlib.Omega.{arith}
