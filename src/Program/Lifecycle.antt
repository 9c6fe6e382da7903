-- ===== src/Program/Lifecycle.antt =====
-- What can happen to an open request.
pub mod Mint
pub mod Redeem
