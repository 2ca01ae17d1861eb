-- ===== src/Prelude.antt =====
-- The names that every module shares: the libraries', passed on, and those of the children.
-- It models no code of its own: native numbers, Boolean tests, lists measured by native numbers,
-- machine words, and results that tell a thrown error from undefined behaviour.
mod Tests
mod Lists
mod Results
mod Loops
pub mod Xor
pub mod Bits
pub mod Words
pub use Tests.*
pub use Lists.*
unfoldable pub use Results.*
unfoldable pub use Loops.*
pub use Prim.Native.Nat.{ℕ, zero, suc, ◌+◌, ◌-◌, ◌*◌, ◌/◌, ◌%◌, ◌^◌, ◌≤◌, ◌<◌, min}
pub use Prim.Native.Nat.{bit_and, bit_or, bit_xor}
pub use mathlib.Core.Path.{◌≡◌, refl, sym, ap, ◌∙◌}
pub use mathlib.Core.Logic.{◌≢◌, ◌↔◌, ◌⊎◌, inl, inr}
pub use mathlib.Core.Bool.{Bool, true, false, not, ◌&&◌, ◌||◌}
pub use mathlib.Core.Option.{Option, none, some}
pub use mathlib.Core.List.{List, [], ◌∷◌, ◌++◌, map}
pub use native.Mathlib.Omega.{arith}
