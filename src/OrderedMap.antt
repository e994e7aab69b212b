-- ===== src/OrderedMap.antt =====
-- `BTreeMap<u64, V>`, as the list of its entries in ascending order of their keys. It serves the
-- ledger of src/inflight.rs.
mod Defs
mod Laws
unfoldable pub use Defs.*
pub use Laws.*
