-- ===== src/Ledger.antt =====
-- src/inflight.rs: the ledger of signed and broadcast nonces. The current time, an instant in
-- nanoseconds, is an argument of each call that reads it; a hash is the number that its bytes spell.
pub mod Bounds
pub mod Records
pub mod Lowest
mod Tests
use fast_wallet.Base.{
  ℕ, ◌+◌, ◌-◌, ◌%◌, Bool, true, false, ◌||◌, not, List, [], ◌∷◌, length, ltb, leb, if◌then◌else◌,
  Option, none, some, u32_mod, keep,
}
use fast_wallet.NonceSet
use fast_wallet.OrderedMap.{Entries, alter, from_key, find, lookup}
use Prim.Native.String.{String}

abbrev pub max_tracked_nonces : ℕ
max_tracked_nonces = 256

pub data InflightNonceStatus : Type 0 where
  signed broadcast_accepted mempool_seen rebroadcast_accepted committed released mined :
      InflightNonceStatus

pub record InflightNonceSnapshot : Type 0 where
  pub nonce : ℕ
  pub tx_hashes : List ℕ
  pub status : InflightNonceStatus
  pub age : ℕ
  pub accepted_broadcasts : ℕ
  pub release_reason : Option String
  pub max_fee_seen : Option ℕ
  pub max_priority_seen : Option ℕ

pub record InflightNonceRecord : Type 0 where
  pub nonce : ℕ
  pub tx_hashes : List ℕ
  pub status : InflightNonceStatus
  pub first_seen : ℕ
  pub accepted_broadcasts : ℕ
  pub release_reason : Option String
  pub max_fee_seen : Option ℕ
  pub max_priority_seen : Option ℕ

unfoldable pub merge_max : Option ℕ → Option ℕ → Option ℕ
merge_max slot none = slot
merge_max none (some value) = some value
merge_max (some cur) (some value) = some (if ltb cur value then value else cur)

unfoldable pub new_record : ℕ → ℕ → Option ℕ → Option ℕ → ℕ → InflightNonceRecord
new_record nonce tx_hash max_fee max_priority now = record {
  nonce = nonce;
  tx_hashes = tx_hash ∷ [];
  status = signed;
  first_seen = now;
  accepted_broadcasts = 0;
  release_reason = none;
  max_fee_seen = max_fee;
  max_priority_seen = max_priority;
}

-- `saturating_duration_since` is the truncated difference.
unfoldable pub snapshot : InflightNonceRecord → ℕ → InflightNonceSnapshot
snapshot r now = record {
  nonce = r.nonce;
  tx_hashes = r.tx_hashes;
  status = r.status;
  age = now - r.first_seen;
  accepted_broadcasts = r.accepted_broadcasts;
  release_reason = r.release_reason;
  max_fee_seen = r.max_fee_seen;
  max_priority_seen = r.max_priority_seen;
}

abbrev pub InflightNonceLedger : Type 0
InflightNonceLedger = Entries InflightNonceRecord

abbrev pub is_unresolved : InflightNonceStatus → Bool
is_unresolved released = false
is_unresolved mined = false
is_unresolved _ = true

abbrev pub is_broadcast_acceptance : InflightNonceStatus → Bool
is_broadcast_acceptance broadcast_accepted = true
is_broadcast_acceptance rebroadcast_accepted = true
is_broadcast_acceptance _ = false

-- `while records.len() > MAX_TRACKED_NONCES { records.remove(first) }`.
unfoldable pub prune_old_records : InflightNonceLedger → InflightNonceLedger
prune_old_records [] = []
prune_old_records (e ∷ m) =
    if ltb max_tracked_nonces (length (e ∷ m)) then prune_old_records m else e ∷ m

-- The test `status == Released`.
abbrev pub is_released : InflightNonceStatus → Bool
is_released released = true
is_released _ = false

-- A released nonce that is signed again starts a new attempt.
unfoldable pub resigned : ℕ → Option ℕ → Option ℕ → ℕ → InflightNonceRecord → InflightNonceRecord
unfolding merge_max
resigned tx_hash max_fee max_priority now r =
    let merged = record r {
      tx_hashes = NonceSet.insert tx_hash r.tx_hashes;
      max_fee_seen = merge_max r.max_fee_seen max_fee;
      max_priority_seen = merge_max r.max_priority_seen max_priority;
    } in
    if is_released r.status
    then record merged {
      status = signed;
      release_reason = none;
      first_seen = now;
      accepted_broadcasts = 0;
    }
    else merged

unfoldable pub record_signed :
    InflightNonceLedger → ℕ → ℕ → Option ℕ → Option ℕ → ℕ → InflightNonceLedger
record_signed records nonce tx_hash max_fee max_priority now = prune_old_records (
    alter nonce (resigned tx_hash max_fee max_priority now)
      (new_record nonce tx_hash max_fee max_priority now) records)

abbrev pub from_bool : Bool → ℕ
from_bool true = 1
from_bool false = 0

-- `accepted_broadcasts` is a u32.
unfoldable pub updated :
    ℕ → InflightNonceStatus → Option String → InflightNonceRecord → InflightNonceRecord
updated tx_hash status release_reason r = record r {
  tx_hashes = NonceSet.insert tx_hash r.tx_hashes;
  status = status;
  accepted_broadcasts =
      (r.accepted_broadcasts + from_bool (is_broadcast_acceptance status)) % u32_mod;
  release_reason = release_reason;
}

unfoldable pub update :
    InflightNonceLedger → ℕ → ℕ → InflightNonceStatus → Option String → ℕ → InflightNonceLedger
unfolding new_record
update records nonce tx_hash status release_reason now = prune_old_records (
    alter nonce (updated tx_hash status release_reason)
      (record (new_record nonce tx_hash none none now) {
        status = status;
        accepted_broadcasts = from_bool (is_broadcast_acceptance status);
        release_reason = release_reason;
      })
      records)

unfoldable pub mark_broadcast_accepted : InflightNonceLedger → ℕ → ℕ → ℕ → InflightNonceLedger
unfolding update
mark_broadcast_accepted records nonce tx_hash now =
    update records nonce tx_hash broadcast_accepted none now

unfoldable pub mark_mempool_seen : InflightNonceLedger → ℕ → ℕ → ℕ → InflightNonceLedger
unfolding update
mark_mempool_seen records nonce tx_hash now = update records nonce tx_hash mempool_seen none now

unfoldable pub mark_rebroadcast_accepted : InflightNonceLedger → ℕ → ℕ → ℕ → InflightNonceLedger
unfolding update
mark_rebroadcast_accepted records nonce tx_hash now =
    update records nonce tx_hash rebroadcast_accepted none now

unfoldable pub mark_mined : InflightNonceLedger → ℕ → ℕ → ℕ → InflightNonceLedger
unfolding update
mark_mined records nonce tx_hash now = update records nonce tx_hash mined none now

-- `B256::ZERO` is put in the hash set and cleared again.
unfoldable pub mark_released : InflightNonceLedger → ℕ → String → ℕ → InflightNonceLedger
unfolding new_record
mark_released records nonce reason now =
    alter nonce (λ r. record r { status = released; release_reason = some reason })
      (record (new_record nonce 0 none none now) {
        tx_hashes = [];
        status = released;
        release_reason = some reason;
      })
      records

unfoldable pub mark_committed : InflightNonceLedger → ℕ → ℕ → InflightNonceLedger
unfolding new_record
mark_committed records nonce now =
    alter nonce (λ r. record r { status = committed; release_reason = none })
      (record (new_record nonce 0 none none now) { tx_hashes = []; status = committed }) records

unfoldable pub prune_consumed : InflightNonceLedger → ℕ → InflightNonceLedger
prune_consumed records chain_next = from_key chain_next records

abbrev pub snapshot_at : ℕ → Option InflightNonceRecord → Option InflightNonceSnapshot
snapshot_at now none = none
snapshot_at now (some r) = some (snapshot r now)

abbrev pub unresolved : InflightNonceRecord → Bool
unresolved r = is_unresolved r.status

unfoldable pub lowest_unresolved_at_or_above :
    InflightNonceLedger → ℕ → ℕ → Option InflightNonceSnapshot
lowest_unresolved_at_or_above records chain_next now =
    snapshot_at now (find unresolved (from_key chain_next records))

unfoldable pub unresolved_count : InflightNonceLedger → ℕ
unresolved_count records = length (keep (λ e. unresolved e.1) records)
