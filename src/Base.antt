-- ===== src/Base.antt =====
-- The names that the other modules share: the libraries' ones, passed on, and those of the children.
mod Tests
mod Equality
mod Lists
mod Strings
mod Trims
pub mod Base64
pub mod Sorting
pub mod Int
pub mod Splitting
pub mod Reordering
pub use Tests.*
unfoldable pub use Equality.*
pub use Lists.*
unfoldable pub use Strings.*
pub use Trims.*
pub use Prim.Native.Nat.{ℕ, zero, suc, ◌+◌, ◌-◌, ◌*◌, ◌/◌, ◌%◌, ◌^◌, ◌≤◌, ◌<◌, min}
pub use Prim.Native.String.{String}
pub use mathlib.Core.Path.{◌≡◌, refl, sym, ap, ◌∙◌}
pub use mathlib.Core.Logic.{◌≢◌, ◌↔◌, ◌⊎◌, inl, inr}
pub use mathlib.Core.Bool.{Bool, true, false, not, ◌&&◌, ◌||◌}
pub use mathlib.Core.Option.{Option, none, some}
pub use mathlib.Core.List.{List, [], ◌∷◌, ◌++◌, map, reverse}
pub use native.Mathlib.Omega.{arith}
