-- ===== src/Prelude.antt =====
-- The names that the modules share: those of the libraries, passed on, and those of its children.
mod Tests
mod Lists
mod Text
mod Includes
mod Updates
mod Integers
mod Decimal
mod Iso
pub use Tests.*
pub use Lists.*
unfoldable pub use Includes.*
pub use Integers.*
unfoldable pub use Decimal.*
unfoldable pub use Iso.*
unfoldable pub use Text.*
unfoldable pub use Updates.*
pub use Prim.Native.Nat.{ℕ, zero, suc, ◌+◌, ◌-◌, ◌*◌, ◌/◌, ◌%◌, ◌^◌, ◌≤◌, ◌<◌}
pub use Prim.Native.String.{String}
pub use mathlib.Core.Path.{◌≡◌, refl, sym, ap, ◌∙◌}
pub use mathlib.Core.Logic.{◌≢◌, ◌↔◌, ◌⊎◌, inl, inr}
pub use mathlib.Core.Bool.{Bool, true, false, not, ◌&&◌, ◌||◌}
pub use mathlib.Core.Option.{Option, none, some}
pub use mathlib.Core.List.{List, [], ◌∷◌, ◌++◌, map}
pub use native.Mathlib.Omega.{arith}
pub use text.Mathlib.TextEquality.{eq_iff}
