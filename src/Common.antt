-- ===== src/Common.antt =====
-- The names that every module shares: the library's, passed on, Boolean tests and integers over
-- the native numbers, and the results of fallible code with Rust's checked arithmetic. It models no
-- file of the program but the list of error codes (programs/poyz/src/errors.rs), in Common/Errors.
mod Tests
mod Errors
pub mod Int
pub mod Checked
pub mod Order
pub use Tests.*
pub use Errors.*
pub use Prim.Native.Nat.{ℕ, zero, suc, ◌+◌, ◌-◌, ◌*◌, ◌/◌, ◌%◌, ◌^◌, ◌≤◌, ◌<◌, min}
pub use mathlib.Core.Path.{◌≡◌, refl, sym, ap, ◌∙◌}
pub use mathlib.Core.Logic.{◌≢◌, ◌↔◌, ◌⊎◌, inl, inr}
pub use mathlib.Core.Bool.{Bool, true, false, not, ◌&&◌, ◌||◌}
pub use mathlib.Core.Option.{Option, none, some}
pub use mathlib.Core.List.{List, [], ◌∷◌, ◌++◌}
pub use native.Mathlib.Omega.{arith}
