-- ===== src/Broadcast.antt =====
-- src/broadcast.rs: the endpoints, the strategies and the builder of the multi-RPC broadcaster.
pub mod Endpoint
pub mod Host
pub mod Presets
pub mod Strategy
pub mod Builder
pub mod Outcome
pub mod Winner
pub mod Private
pub mod Order
pub mod Links
pub mod Calls
pub mod Spared
mod Tests
