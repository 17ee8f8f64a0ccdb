-- ===== src/Common.antt =====
-- The names that the components share: the libraries', passed on, and those of the children.
mod Tests
mod Lists
mod Results
mod Members
mod Counts
mod Picks
mod Calls
mod Ints
mod Maps
pub mod Utf8
mod Texts
mod Ranges
mod Spaces
unfoldable pub use Tests.*
unfoldable pub use Lists.*
pub use Results.*
pub use Members.*
pub use Counts.*
pub use Picks.*
unfoldable pub use Calls.*
unfoldable pub use Ints.*
unfoldable pub use Maps.*
unfoldable pub use Utf8.{valid_utf8}
unfoldable pub use Texts.*
unfoldable pub use Ranges.*
unfoldable pub use Spaces.*
pub use Prim.Native.Nat.{ℕ, zero, suc, ◌+◌, ◌-◌, ◌*◌, ◌/◌, ◌%◌, ◌^◌, ◌≤◌, ◌<◌, min}
pub use Prim.Native.String.{String}
pub use mathlib.Core.Path.{◌≡◌, refl, sym, ap, ◌∙◌, subst}
pub use mathlib.Core.Logic.{◌≢◌, ◌↔◌, ◌⊎◌, inl, inr}
pub use mathlib.Core.Bool.{Bool, true, false, not, ◌&&◌, ◌||◌}
pub use mathlib.Core.Option.{Option, none, some}
pub use mathlib.Core.List.{List, [], ◌∷◌, ◌++◌, map, reverse, Memᴰ}
pub use native.Mathlib.Omega.{arith}
