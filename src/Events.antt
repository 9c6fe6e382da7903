-- ===== src/Events.antt =====
-- The events (programs/poyz/src/events.rs). A handler that succeeds returns the one that it emits.
pub mod Admin
pub mod Keepers
pub mod Requests
pub mod Funding
