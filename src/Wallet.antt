-- ===== src/Wallet.antt =====
-- src/wallet.rs: the wallet over its tracker, its in-flight ledger and the signer.
pub mod Send
pub mod Broadcast
pub mod Agreed
pub mod Preheat
pub mod Presend
pub mod Detailed
pub mod Kept
pub mod Prices
pub mod Gas
pub mod Verify
pub mod Tracked
pub mod Optimistic
pub mod Nonces
pub mod Config
pub mod Build
pub mod Routes
pub mod Builds
pub mod Sharing
pub mod Status
pub mod Checked
pub mod Connections
pub mod Stall
pub mod Stalled
pub mod Replace
pub mod Freed
pub mod Guards
pub mod Justified
mod Tests
use fast_wallet.Base.{ℕ, Option}
use fast_wallet.Transaction.{Bytes}
use fast_wallet.Transaction.Sign.{Crypto}
use fast_wallet.Tracker.{NonceTracker}
use fast_wallet.Ledger.{InflightNonceLedger}

-- What a wallet changes. Its configuration and its keys stand in `Setting`; the tracker is that of its
-- `SingleAddressNonceManager`, which passes each call on. The last replacement is a nonce with an instant.
pub record FastWallet : Type 0 where
  pub tracker : NonceTracker
  pub inflight : InflightNonceLedger
  pub last_stall_replace : Option (ℕ × ℕ)

pub record Setting : Type 0 where
  pub crypto : Crypto
  pub address : Bytes
  pub chain_id : ℕ
  pub default_gas_limit : ℕ
