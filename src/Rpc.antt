-- ===== src/Rpc.antt =====
-- src/rpc.rs and src/rpc/: what the RPC layer answers, over replies that the network gives.
pub mod Redact
pub mod Warm
pub mod Client
pub mod Send
pub mod Fanout
pub mod Detail
pub mod Observe
pub mod Rows
pub mod Reads
pub mod Receipts
pub mod Warmth
pub mod Clients
pub mod Distinct
pub mod Serves
pub mod Warmups
pub mod Verdicts
pub mod Leaks
pub mod Cut
pub mod Hidden
mod Tests
