-- ===== src/Prelude.antt =====
-- Names shared by all modules: the libraries' names, tests, lists over native numbers,
-- fixed arrays as functions, and unsigned words.
mod Tests
mod Lists
mod Arrays
mod Words
mod Counting
unfoldable pub use Tests.*
unfoldable pub use Lists.*
unfoldable pub use Arrays.*
unfoldable pub use Words.*
unfoldable pub use Counting.*
pub use Prim.Native.Nat.{
  ℕ, zero, suc, ◌+◌, ◌-◌, ◌*◌, ◌/◌, ◌%◌, ◌^◌, ◌≤◌, ◌<◌, min, max, bit_and, bit_xor,
}
pub use mathlib.Core.Path.{◌≡◌, refl, sym, ap, subst, ◌∙◌}
pub use mathlib.Core.Logic.{◌≢◌, ◌↔◌, ◌⊎◌, inl, inr}
pub use mathlib.Core.Bool.{Bool, true, false, not, ◌&&◌, ◌||◌}
pub use mathlib.Core.Option.{Option, none, some}
pub use mathlib.Core.List.{List, [], ◌∷◌, ◌++◌, map, foldl}
pub use native.Mathlib.Omega.{arith}
