-- ===== src/Wallet/Broadcast.antt =====
-- How src/wallet.rs hands a signed transaction to its endpoints: `broadcast_signed_hash`,
-- `broadcast_signed_result` and `send_signed_detailed`, with `broadcast_transaction` of src/rpc/batch.rs. The
-- replies and the order of their arrival are arguments.
use fast_wallet.Base.{ℕ, List, if◌then◌else◌}
use fast_wallet.Errors.{Message, BroadcastFailure, rpc_error, timeout, WalletResult, ok, err, ◌>>=◌}
use fast_wallet.Errors.Text.{codes}
use fast_wallet.Errors.Classify.{is_definitive_precheck_rejection, SyncBlock}
use fast_wallet.Transaction.{Bytes, nonce}
use fast_wallet.Transaction.Sign.{Transaction}
use fast_wallet.Tracker
use fast_wallet.Ledger.{mark_broadcast_accepted, mark_released}
use fast_wallet.Rpc.Send.{HashTools, SendResult, parse_b256_hex}
use fast_wallet.Rpc.Fanout.{EndpointReply, broadcast_transaction_observed}
use fast_wallet.Wallet.{FastWallet}
use fast_wallet.Wallet.Send.{hash_number, record_broadcast_candidate, recover_nonce_error}

-- What waiting for a permit of the pending transactions' semaphore gives.
pub data Permit : Type 0 where
  granted wait_ends closed : Permit

unfoldable pub acquired : Permit → WalletResult {0} Unit
acquired granted = ok tt
acquired wait_ends = err timeout
acquired closed = err (rpc_error (codes "Semaphore closed"))

-- The endpoints of a broadcast: what the batch client's endpoints reply, and in which order, if the wallet has
-- such a client; else what its one client gives.
pub data Endpoints {ℓ} (A : Type ℓ) : Type ℓ where
  batch : List EndpointReply → Endpoints A
  single : WalletResult A → Endpoints A

module _ (json : BroadcastFailure → Message) (H : HashTools) (fanout_ms : ℕ)
    (arrival : List EndpointReply → List EndpointReply) where
  unfoldable pub broadcast_transaction : List EndpointReply → WalletResult Bytes
  unfolding broadcast_transaction_observed parse_b256_hex
  broadcast_transaction replies =
      broadcast_transaction_observed json H fanout_ms arrival replies >>= λ result.
      parse_b256_hex H result.tx_hash

  unfoldable pub broadcast_signed_hash : Permit → Endpoints Bytes → WalletResult Bytes
  unfolding acquired broadcast_transaction
  broadcast_signed_hash permit endpoints = acquired permit >>= λ _. elim endpoints [
    | batch replies ↦ broadcast_transaction replies
    | single result ↦ result
  ]

  unfoldable pub broadcast_signed_result :
      ℕ → ℕ → Permit → Endpoints SendResult → WalletResult SendResult
  unfolding acquired broadcast_transaction_observed
  broadcast_signed_result sign_ms semaphore_wait_ms permit endpoints = acquired permit >>= λ _.
      elim endpoints [
        | batch replies ↦ broadcast_transaction_observed json H fanout_ms arrival replies
        | single result ↦ result
      ]
      >>= λ result. ok (record result { sign_ms = sign_ms; semaphore_wait_ms = semaphore_wait_ms })

module _ (json : BroadcastFailure → Message) (chain_nonce : SyncBlock → WalletResult ℕ) where
  -- The match on the result; a success is recorded under the transaction's own hash.
  unfoldable pub settle_detailed :
      FastWallet → Transaction → WalletResult SendResult → ℕ → FastWallet
  unfolding recover_nonce_error
  settle_detailed w tx (ok sent) now = record w {
    inflight = mark_broadcast_accepted w.inflight (nonce tx.typed_tx) (hash_number tx.hash) now;
  }
  settle_detailed w tx (err error) now =
      if is_definitive_precheck_rejection json error
      then record w {
        tracker = Tracker.release w.tracker (nonce tx.typed_tx);
        inflight = mark_released w.inflight (nonce tx.typed_tx) "definitive_precheck_rejection" now;
      }
      else recover_nonce_error json chain_nonce w error

  unfoldable pub send_signed_detailed :
      FastWallet
      → Transaction
      → WalletResult SendResult
      → ℕ
      → ℕ
      → FastWallet × WalletResult SendResult
  unfolding record_broadcast_candidate settle_detailed
  send_signed_detailed w tx result now settled =
      (settle_detailed (record_broadcast_candidate w tx now) tx result settled, result)
