-- ===== src/Prelude.antt =====
-- The names that the other modules share: the libraries', passed on, and those of the children.
-- `Tests` has Boolean tests on native numbers, `Lists` sequences, `Words` 64-bit and 32-bit words
-- and page arithmetic, `Assoc` finite maps, `Outcome` the outcome of
-- a kernel operation.
mod Tests
mod Lists
mod Words
mod Outcome
mod Assoc
pub mod Text
pub use Tests.*
unfoldable pub use Tests.{holds_below}
pub use Lists.*
pub use Words.*
pub use Outcome.*
pub use Assoc.{Store, lookup-erase, lookup-insert}
unfoldable pub use Assoc.{lookup, erase, insert}
pub use Prim.Native.Nat.{ℕ, zero, suc, ◌+◌, ◌-◌, ◌*◌, ◌/◌, ◌%◌, ◌^◌, ◌≤◌, ◌<◌}
pub use mathlib.Core.Path.{◌≡◌, refl, sym, ap, ◌∙◌}
pub use mathlib.Core.Logic.{◌≢◌, ◌↔◌, ◌⊎◌, inl, inr}
pub use mathlib.Core.Bool.{Bool, true, false, ◌&&◌, ◌||◌, not}
pub use mathlib.Core.Option.{Option, none, some}
pub use mathlib.Core.List.{List, [], ◌∷◌, ◌++◌, map}
pub use native.Mathlib.Omega.{arith}
