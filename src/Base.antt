-- ===== src/Base.antt =====
-- The names that all components share: the libraries', passed on, Boolean tests, lists measured
-- by native numbers, and little-endian words.
pub mod Tests
pub mod Lists
pub mod Outcome
pub mod Words
pub mod Decimal
pub mod Text
pub use Tests.*
pub use Lists.*
pub use Outcome.{Run, done, fault, out_of_fuel}
unfoldable pub use Words.*
unfoldable pub use Decimal.{decimal}
pub use Decimal.{decimal-inj}
pub use Prim.Native.Nat.{ℕ, zero, suc, ◌+◌, ◌-◌, ◌*◌, ◌/◌, ◌%◌, ◌^◌, ◌≤◌, ◌<◌, bit_xor}
pub use mathlib.Core.Path.{◌≡◌, refl, sym, ap, ◌∙◌, subst}
pub use mathlib.Core.Logic.{◌≢◌, ◌↔◌, ◌⊎◌, inl, inr}
pub use mathlib.Core.Bool.{Bool, true, false, ◌&&◌, ◌||◌, not}
pub use mathlib.Core.Option.{Option, none, some}
pub use mathlib.Core.List.{List, [], ◌∷◌, ◌++◌, map}
pub use native.Mathlib.Omega.{arith}
