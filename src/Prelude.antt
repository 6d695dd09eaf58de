-- ===== src/Prelude.antt =====
-- The names that every other module shares: the libraries', passed on, and those of the children,
-- which hold Boolean tests, equality by instances, lists over the native numbers and Python's
-- `dict` as an ordered association list.
mod Tests
mod Lists
mod Equality
mod Dicts
mod Bindings
pub use Tests.*
pub use Lists.*
pub use Equality.*
unfoldable pub use Dicts.*
pub use Bindings.*
pub use Prim.Native.Nat.{
  ℕ, zero, suc, ◌+◌, ◌-◌, ◌*◌, ◌/◌, ◌%◌, ◌^◌, ◌≤◌, ◌<◌, min, max, compare, Ordering,
}
pub use Prim.Native.String.{String}
pub use mathlib.Core.Path.{◌≡◌, refl, sym, ap, ◌∙◌, subst}
pub use mathlib.Core.Logic.{◌≢◌, ◌↔◌, ◌⊎◌, inl, inr}
pub use mathlib.Core.Bool.{Bool, true, false, not, ◌&&◌, ◌||◌}
pub use mathlib.Core.Option.{Option, none, some}
pub use mathlib.Core.List.{List, [], ◌∷◌, ◌++◌, map}
pub use native.Mathlib.Omega.{arith}
