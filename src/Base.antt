-- ===== src/Base.antt =====
-- The names that all modules share: the libraries', passed on, Boolean tests, predicates on
-- lists and the tables that stand for the repositories of the database.
mod Tests
mod Lists
mod Table
mod Keys
mod Pairwise
mod Results
mod Units
mod Calendar
pub mod Int
pub use Tests.*
unfoldable pub use Lists.*
unfoldable pub use Table.*
pub use Keys.*
pub use Pairwise.*
unfoldable pub use Results.*
unfoldable pub use Units.*
unfoldable pub use Calendar.*
pub use Prim.Native.Nat.{ℕ, zero, suc, ◌+◌, ◌-◌, ◌*◌, ◌/◌, ◌%◌, ◌^◌, ◌≤◌, ◌<◌, min, max}
pub use Prim.Native.String.{String}
pub use mathlib.Core.Path.{◌≡◌, refl, sym, ap, ◌∙◌, subst}
pub use mathlib.Core.Logic.{◌≢◌, ◌↔◌, ◌⊎◌, inl, inr}
pub use mathlib.Core.Bool.{Bool, true, false, ◌&&◌, ◌||◌, not}
pub use mathlib.Core.Option.{Option, none, some}
pub use mathlib.Core.List.{List, [], ◌∷◌, map}
pub use native.Mathlib.Omega.{arith}
pub use text.Mathlib.TextEquality.{eq_iff}
pub use text.Mathlib.TextPositions.{eq_refl}
