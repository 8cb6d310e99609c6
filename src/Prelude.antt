-- ===== src/Prelude.antt =====
-- Shared notation: the names of the libraries that the other modules use, tests on numbers, lists
-- measured by native numbers, and Python's `dict` with string keys.
pub mod Tests
pub mod Lists
pub mod Dict
pub mod Int
pub mod Json
pub use Tests.{
  ltb, leb, eqb, ltb→lt, lt→ltb, leb→le, if◌then◌else◌, when, Bool-cases, Option-cases, is_some,
  bit, if_ind, when_ind, option_ind,
}
pub use Lists.{
  length, length-append, get_elem?, get_or, All, All-append, All-mono, All-map, count, count-append,
}
pub use Prim.Native.Nat.{ℕ, zero, suc, ◌+◌, ◌-◌, ◌*◌, ◌/◌, ◌%◌, ◌^◌, ◌≤◌, ◌<◌}
pub use Prim.Native.String.{String}
pub use mathlib.Core.Path.{◌≡◌, refl, sym, ap, ◌∙◌, subst}
pub use mathlib.Core.Logic.{◌≢◌, ◌↔◌, ◌⊎◌, inl, inr}
pub use mathlib.Core.Bool.{Bool, true, false, not, ◌&&◌, ◌||◌}
pub use mathlib.Core.Option.{Option, none, some}
pub use mathlib.Core.List.{List, [], ◌∷◌, ◌++◌, map}
pub use native.Mathlib.Omega.{arith}
pub use text.Mathlib.Text.{◌==◌}
pub use text.Mathlib.TextEquality.{eq_iff}
pub use text.Mathlib.TextPositions.{eq_refl}
