-- ===== src/Prelude.antt =====
-- Names, notation and lemmas that the models share: the libraries' names passed on, Boolean tests
-- on native numbers, decidable equality as an instance, results, lists, dictionaries and texts.
mod Tests
mod Results
mod Lists
mod Dicts
mod Sorting
mod Texts
mod Values
unfoldable pub use Tests.*
pub use Results.*
pub use Lists.*
unfoldable pub use Dicts.*
unfoldable pub use Sorting.*
unfoldable pub use Texts.*
unfoldable pub use Values.*
pub use Prim.Native.Nat.{ℕ, zero, suc, ◌+◌, ◌-◌, ◌*◌, ◌/◌, ◌%◌, ◌≤◌, ◌<◌}
pub use mathlib.Core.Path.{◌≡◌, refl, sym, ap, subst, ◌∙◌}
pub use mathlib.Core.Logic.{◌≢◌, ◌↔◌, ◌⊎◌, inl, inr}
pub use mathlib.Core.Bool.{Bool, true, false, not, ◌&&◌, ◌||◌}
pub use mathlib.Core.Option.{Option, none, some}
pub use mathlib.Core.List.{List, [], ◌∷◌, ◌++◌}
pub use native.Mathlib.Omega.{arith}
unfoldable pub use native.Mathlib.Decide.{ℕ_discrete}
