-- ===== src/Common.antt =====
-- The names that the other modules share: the libraries', passed on, and those of the children.
mod Tests
mod Lists
mod Int
mod Keys
mod Assoc
mod Results
mod Traverse
mod Substrings
mod Uniqueness
pub mod Text
pub use Tests.*
pub use Lists.*
pub use Int.*
pub use Keys.*
pub use Assoc.*
pub use Results.*
pub use Traverse.*
pub use Substrings.*
pub use Uniqueness.*
unfoldable pub use Results.{traverse}
unfoldable pub use Keys.{list_beq}
unfoldable pub use Int.{◌+ℤ◌, ◌-ℤ◌, to_unsigned, to_signed, as_signed}
unfoldable pub use Text.{starts_with, ends_with, contains_str}
unfoldable pub use Assoc.{lookup, insert, remove, contains, subtract, extend}
pub use Text.{Str, codes, is_empty}
pub use Prim.Native.Nat.{ℕ, zero, suc, ◌+◌, ◌-◌, ◌*◌, ◌/◌, ◌%◌, ◌^◌, ◌≤◌, ◌<◌}
pub use mathlib.Core.Path.{◌≡◌, refl, sym, ap, ◌∙◌, subst}
pub use mathlib.Core.Logic.{◌≢◌, ◌↔◌, ◌⊎◌, inl, inr}
pub use mathlib.Core.Bool.{Bool, true, false, not, ◌&&◌, ◌||◌}
pub use mathlib.Core.Option.{Option, none, some}
pub use mathlib.Core.List.{List, [], ◌∷◌, ◌++◌, map}
pub use native.Mathlib.Omega.{arith}
