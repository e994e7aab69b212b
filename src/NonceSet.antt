-- ===== src/NonceSet.antt =====
-- `BTreeSet<u64>`, as the list of its elements in ascending order. It serves the recycled gaps of
-- src/nonce.rs and the hash sets of src/inflight.rs.
mod Defs
mod Laws
unfoldable pub use Defs.*
pub use Laws.*
