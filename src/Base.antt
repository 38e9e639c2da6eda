-- ===== src/Base.antt =====
-- The names that every other module shares: the libraries', passed on, and those of the children
-- below (Boolean tests, lists over the native numbers, machine words, bit operations, integers, sorting,
-- sets, outcomes, text).
mod Tests
mod Lists
mod Words
pub mod Bits
pub mod Int
pub mod Sorting
pub mod Sets
pub mod Text
pub mod Outcomes
pub use Tests.*
pub use Lists.*
pub use Words.*
pub use Prim.Native.Nat.{ℕ, zero, suc, ◌+◌, ◌-◌, ◌*◌, ◌/◌, ◌%◌, ◌^◌, ◌≤◌, ◌<◌}
pub use Prim.Native.Nat.{bit_and, bit_or, bit_xor, max}
pub use mathlib.Core.Path.{◌≡◌, refl, sym, ap, subst, ◌∙◌, fun_ext}
pub use mathlib.Core.Logic.{◌≢◌, ◌↔◌, ◌⊎◌, inl, inr}
pub use mathlib.Core.Bool.{Bool, true, false, not, ◌&&◌, ◌||◌}
pub use mathlib.Core.Option.{Option, none, some}
pub use mathlib.Core.List.{List, [], ◌∷◌, ◌++◌, map}
pub use native.Mathlib.Omega.{arith}
