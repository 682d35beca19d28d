-- ===== src/Prelude.antt =====
-- The names that every other module shares: the libraries', passed on, the Boolean tests, and the
-- table operations that stand for Django's query sets.
mod Tests
mod Tables
pub mod Constraints
pub mod Sorting
pub mod Members
pub mod Counting
pub mod Rows
pub mod Reordering
pub mod Dict
pub mod Strings
pub mod Prefixes
pub mod Int
pub use Tests.*
pub use Tables.*
pub use Prim.Native.Nat.{ℕ, zero, suc, ◌+◌, ◌-◌, ◌*◌, ◌^◌, ◌≤◌, ◌<◌}
pub use Prim.Native.String.{String}
pub use mathlib.Core.Path.{◌≡◌, refl, sym, ap, subst, ◌∙◌}
pub use mathlib.Core.Logic.{◌≢◌, ◌↔◌, ◌⊎◌, inl, inr}
pub use mathlib.Core.Bool.{Bool, true, false, not, ◌&&◌, ◌||◌}
pub use mathlib.Core.Option.{Option, none, some}
pub use mathlib.Core.List.{List, [], ◌∷◌, ◌++◌, map}
pub use native.Mathlib.Omega.{arith}
pub use text.Mathlib.TextEquality.{eq_iff}
