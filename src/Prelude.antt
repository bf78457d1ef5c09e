-- ===== src/Prelude.antt =====
-- The names that every module shares: the libraries', passed on, and those of the child modules
-- (tests on numbers, texts of the browser runtime, lists of ids, maps keyed by texts, sorting, loops
-- of requests).
mod Tests
mod Texts
mod Lists
mod Ids
mod Maps
mod Sorting
mod Loops
pub use Tests.*
unfoldable pub use Texts.*
pub use Lists.*
pub use Ids.*
pub use Maps.*
pub use Sorting.*
unfoldable pub use Loops.*
pub use Prim.Native.Nat.{ℕ, zero, suc, ◌+◌, ◌-◌, ◌*◌, ◌/◌, ◌%◌, ◌^◌, ◌≤◌, ◌<◌, min}
pub use Prim.Native.String.{String}
pub use mathlib.Core.Path.{◌≡◌, refl, sym, ap, ap₂, subst, ◌∙◌}
pub use mathlib.Core.Logic.{◌≢◌, ◌↔◌, ◌⊎◌, inl, inr}
pub use mathlib.Core.Bool.{false≢true, Bool, true, false, not, ◌&&◌, ◌||◌}
pub use mathlib.Core.Option.{Option, none, some}
pub use mathlib.Core.List.{List, [], ◌∷◌, ◌++◌, map}
pub use native.Mathlib.Omega.{arith}
pub use text.Mathlib.Text.{◌==◌}
pub use text.Mathlib.TextEquality.{eq_iff}
pub use text.Mathlib.TextPositions.{eq_refl}
