-- ===== src/Prelude.antt =====
-- Names that every module shares: the libraries', passed on, and those of the child modules.
mod Tests
mod Outcome
mod Lists
pub mod Text
pub mod Int
pub mod Order
pub mod Decimal
pub mod Sort
pub use Tests.*
unfoldable pub use Outcome.*
unfoldable pub use Lists.*
pub use Prim.Native.Nat.{ℕ, zero, suc, ◌+◌, ◌-◌, ◌*◌, ◌/◌, ◌%◌, ◌≤◌, ◌<◌}
pub use Prim.Native.String.{String}
pub use mathlib.Core.Path.{◌≡◌, refl, sym, ap, ◌∙◌, subst}
pub use mathlib.Core.Logic.{◌≢◌, ◌↔◌, ◌⊎◌, inl, inr}
pub use mathlib.Core.Bool.{Bool, true, false, ◌&&◌, ◌||◌, not}
pub use mathlib.Core.Option.{Option, none, some}
pub use mathlib.Core.List.{List, [], ◌∷◌}
unfoldable pub use mathlib.Core.List.{◌++◌, map}
pub use native.Mathlib.Omega.{arith}
