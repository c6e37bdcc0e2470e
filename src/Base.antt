-- ===== src/Base.antt =====
-- The names that the other modules share: the libraries', passed on, and those of the children
-- below, which hold the Boolean tests, the results of code that may raise, lists and text.
mod Tests
mod Lists
mod Membership
pub mod Text
pub mod Mapping
pub use Tests.*
pub use Lists.*
pub use Membership.*
unfoldable pub use Text.{text_le, strip, text_length, is_blank}
pub use Text.{is_empty}
pub use Prim.Native.Nat.{ℕ, zero, suc, ◌+◌, ◌-◌, ◌*◌, ◌/◌, ◌%◌, ◌≤◌, ◌<◌, min, max}
pub use Prim.Native.String.{String}
pub use mathlib.Core.Path.{◌≡◌, refl, sym, ap, ◌∙◌}
pub use mathlib.Core.Logic.{◌≢◌, ◌↔◌, ◌⊎◌, inl, inr}
pub use mathlib.Core.Bool.{Bool, true, false, ◌&&◌, ◌||◌, not}
pub use mathlib.Core.Option.{Option, none, some}
pub use mathlib.Core.List.{List, [], ◌∷◌, ◌++◌, map}
pub use native.Mathlib.Omega.{arith}
pub use text.Mathlib.Text.{◌==◌}
pub use text.Mathlib.TextEquality.{eq_iff}
pub use text.Mathlib.TextPositions.{eq_refl}
