-- ===== src/Prelude.antt =====
-- The names that the other modules share: those of the libraries, and those of the children.
pub mod Tests
pub mod Lists
pub mod Last
pub mod Strings
pub mod Trim
pub mod Int
pub mod Utf8
pub mod Numerals
pub mod Dicts
pub use Tests.*
pub use Lists.*
pub use Last.*
unfoldable pub use Strings.*
pub use Trim.*
pub use Int.*
unfoldable pub use Utf8.*
unfoldable pub use Numerals.*
unfoldable pub use Dicts.*
pub use Prim.Native.Nat.{ℕ, zero, suc, ◌+◌, ◌-◌, ◌*◌, ◌/◌, ◌%◌, ◌^◌, ◌≤◌, ◌<◌, min, max}
pub use Prim.Native.String.{String}
pub use mathlib.Core.Path.{◌≡◌, refl, sym, ap, ◌∙◌, subst}
pub use mathlib.Core.Logic.{◌≢◌, ◌↔◌, ◌⊎◌, inl, inr}
pub use mathlib.Core.Bool.{Bool, true, false, not, ◌&&◌, ◌||◌}
pub use mathlib.Core.Option.{Option, none, some}
pub use mathlib.Core.List.{List, [], ◌∷◌, ◌++◌, map, reverse, append-nil, append_assoc}
pub use native.Mathlib.Omega.{arith}
