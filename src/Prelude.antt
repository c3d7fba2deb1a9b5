-- ===== src/Prelude.antt =====
-- The names that the other modules share: the libraries', passed on, and those of the children.
mod Tests
mod Lists
mod Strings
mod Stripping
mod Dict
mod Outcome
pub use Tests.*
pub use Lists.*
unfoldable pub use Strings.*
pub use Stripping.*
unfoldable pub use Dict.*
pub use Outcome.*
pub use Prim.Native.Nat.{ℕ, zero, suc, ◌+◌, ◌-◌, ◌*◌, ◌/◌, ◌%◌, ◌≤◌, ◌<◌, min, max}
pub use Prim.Native.String.{String}
pub use mathlib.Core.Path.{◌≡◌, refl, sym, ap, ◌∙◌}
pub use mathlib.Core.Logic.{◌≢◌, ◌↔◌, ◌⊎◌, inl, inr}
pub use mathlib.Core.Bool.{Bool, true, false, not, ◌&&◌, ◌||◌}
pub use mathlib.Core.Option.{Option, none, some}
pub use mathlib.Core.List.{List, [], ◌∷◌, ◌++◌, map}
pub use native.Mathlib.Omega.{arith}
