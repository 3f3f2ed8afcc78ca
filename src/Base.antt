-- ===== src/Base.antt =====
-- The names that the modules share: the libraries', passed on, and those of the children: Boolean
-- tests, lists over the native numbers, Python's integers, and results of code that may raise.
pub mod Tests
pub mod Lists
pub mod Int
pub mod Raise
pub mod Text
pub mod Parse
pub mod Dict
pub mod Url
pub use Tests.*
pub use Lists.*
pub use Raise.*
pub use Prim.Native.Nat.{ℕ, zero, suc, ◌+◌, ◌-◌, ◌*◌, ◌/◌, ◌%◌, ◌^◌, ◌≤◌, ◌<◌}
pub use Prim.Native.String.{String}
pub use mathlib.Core.Path.{◌≡◌, refl, sym, ap, ◌∙◌}
pub use mathlib.Core.Logic.{◌≢◌, ◌↔◌, ◌⊎◌, inl, inr}
pub use mathlib.Core.Bool.{Bool, true, false, ◌&&◌, ◌||◌, not}
pub use mathlib.Core.Option.{Option, none, some}
pub use mathlib.Core.List.{List, [], ◌∷◌, ◌++◌, map}
pub use native.Mathlib.Omega.{arith}
pub use text.Mathlib.TextEquality.{eq_iff}
