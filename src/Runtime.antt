-- ===== src/Runtime.antt =====
-- What the program calls and does not implement, as one record of functions: the SPL token program,
-- Anchor's decoding of the oracle account, SHA-256 and the derivation of account addresses. Handlers
-- take it as a parameter; what theorems rely on is stated in Runtime/Laws.
pub mod Laws
mod Defs
mod Calls
pub use Defs.*
unfoldable pub use Calls.{owned_wallet, deposit, withdraw}
