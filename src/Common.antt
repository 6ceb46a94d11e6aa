-- ===== src/Common.antt =====
-- Names that every module shares: the library's, passed on, and those of the children.
mod Test
mod Lists
mod Strings
mod Writer
mod Splitting
mod Permutation
mod Search
mod Repeats
mod Pigeonhole
pub use Test.*
pub use Lists.*
unfoldable pub use Strings.*
pub use Repeats.*
pub use Pigeonhole.*
pub use Search.*
pub use Permutation.*
pub use Splitting.*
unfoldable pub use Writer.*
pub use Prim.Native.Nat.{ℕ, zero, suc, ◌+◌, ◌-◌, ◌≤◌, ◌<◌}
pub use mathlib.Core.Path.{◌≡◌, refl, sym, ap, ◌∙◌}
pub use mathlib.Core.Logic.{◌≢◌, ◌↔◌, ◌⊎◌, inl, inr}
pub use mathlib.Core.Bool.{Bool, true, false, not, ◌&&◌, ◌||◌}
pub use mathlib.Core.Option.{Option, none, some}
pub use mathlib.Core.List.{List, [], ◌∷◌, ◌++◌, map, reverse, append-nil, append_assoc}
unfoldable pub use mathlib.Core.List.{flat_map}
pub use mathlib.Core.List.{map-append}
pub use native.Mathlib.Omega.{arith}
