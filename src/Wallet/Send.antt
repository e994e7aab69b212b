-- ===== src/Wallet/Send.antt =====
-- Signing and sending: `sign`, `sign_with_nonce`, `release_nonce` and `send_signed` of src/wallet.rs. What the
-- network answers is an argument: the broadcast's result and the chain's nonce at either tag. A broadcast
-- covers the wait for a permit, which fails as a `Timeout`.
use fast_wallet.Base.{ℕ, ◌==◌, Option, none, some, if◌then◌else◌}
use fast_wallet.Errors.{Message, BroadcastFailure, WalletError, WalletResult, ok, err}
use fast_wallet.Errors.Classify.{is_definitive_precheck_rejection, SyncBlock, nonce_sync_block}
use fast_wallet.Transaction.{Bytes, nonce, max_fee_per_gas, max_priority_fee_per_gas}
use fast_wallet.Transaction.Standards.{be_value}
use fast_wallet.Transaction.Request.{TransactionRequest}
use fast_wallet.Transaction.Sign.{Transaction, build_and_sign}
use fast_wallet.Tracker
use fast_wallet.Ledger.{record_signed, mark_broadcast_accepted, mark_released, prune_consumed}
use fast_wallet.Wallet.{FastWallet, Setting}

-- A hash, as the number that the ledger keeps.
abbrev pub hash_number : Bytes → ℕ
hash_number hash = be_value 0 hash

unfoldable pub record_broadcast_candidate : FastWallet → Transaction → ℕ → FastWallet
record_broadcast_candidate w tx now = record w {
  inflight =
      record_signed w.inflight (nonce tx.typed_tx) (hash_number tx.hash)
        (max_fee_per_gas tx.typed_tx) (max_priority_fee_per_gas tx.typed_tx) now;
}

unfoldable pub record_signed_or_release :
    FastWallet → ℕ → WalletResult Transaction → ℕ → FastWallet × WalletResult Transaction
unfolding record_broadcast_candidate
record_signed_or_release w reserved (ok tx) now = (record_broadcast_candidate w tx now, ok tx)
record_signed_or_release w reserved (err error) now = (
  record w {
    tracker = Tracker.release w.tracker reserved;
    inflight = mark_released w.inflight reserved "sign_error" now;
  },
  err error,
)

unfoldable pub record_signed_without_release :
    FastWallet → WalletResult Transaction → ℕ → FastWallet × WalletResult Transaction
unfolding record_broadcast_candidate
record_signed_without_release w (ok tx) now = (record_broadcast_candidate w tx now, ok tx)
record_signed_without_release w (err error) now = (w, err error)

module _ (S : Setting) where
  -- The request as the wallet signs it.
  unfoldable pub completed : TransactionRequest → ℕ → TransactionRequest
  completed request n = record request {
    nonce = n;
    chain_id = S.chain_id;
    gas_limit = if request.gas_limit == 0 then S.default_gas_limit else request.gas_limit;
  }

  unfoldable pub sign : FastWallet → TransactionRequest → ℕ → FastWallet × WalletResult Transaction
  unfolding completed record_signed_or_release
  sign w request now =
      let (tracker, n) = Tracker.get_and_increment w.tracker in
      record_signed_or_release (record w { tracker = tracker }) n
        (build_and_sign S.crypto (completed request n)) now

  unfoldable pub sign_with_nonce :
      FastWallet → TransactionRequest → ℕ → ℕ → FastWallet × WalletResult Transaction
  unfolding completed record_signed_without_release
  sign_with_nonce w request n now =
      record_signed_without_release w (build_and_sign S.crypto (completed request n)) now

unfoldable pub release_nonce : FastWallet → ℕ → ℕ → FastWallet
release_nonce w n now = record w {
  tracker = Tracker.release w.tracker n;
  inflight = mark_released w.inflight n "manual_release" now;
}

-- `sync_nonce` and `sync_nonce_latest`, which differ in the tag that they ask the chain for.
unfoldable pub sync_nonce : FastWallet → WalletResult ℕ → FastWallet × WalletResult ℕ
sync_nonce w (err error) = (w, err error)
sync_nonce w (ok chain_nonce) = (
  record w {
    tracker = (Tracker.sync_forward w.tracker chain_nonce).0;
    inflight = prune_consumed w.inflight chain_nonce;
  },
  ok chain_nonce,
)

module _ (json : BroadcastFailure → Message) (chain_nonce : SyncBlock → WalletResult ℕ) where
  unfoldable pub synced_to : FastWallet → Option SyncBlock → FastWallet
  unfolding sync_nonce
  synced_to w none = w
  synced_to w (some block) = (sync_nonce w (chain_nonce block)).0

  unfoldable pub recover_nonce_error : FastWallet → WalletError → FastWallet
  unfolding synced_to
  recover_nonce_error w error = synced_to w (nonce_sync_block json error)

  -- What `send_signed` does with the broadcast's result.
  unfoldable pub settle : FastWallet → Transaction → WalletResult Bytes → ℕ → FastWallet
  unfolding recover_nonce_error
  settle w tx (ok hash) now = record w {
    inflight = mark_broadcast_accepted w.inflight (nonce tx.typed_tx) (hash_number hash) now;
  }
  settle w tx (err error) now =
      if is_definitive_precheck_rejection json error
      then record w {
        tracker = Tracker.release w.tracker (nonce tx.typed_tx);
        inflight = mark_released w.inflight (nonce tx.typed_tx) "definitive_precheck_rejection" now;
      }
      else recover_nonce_error w error

  unfoldable pub send_signed :
      FastWallet → Transaction → WalletResult Bytes → ℕ → ℕ → FastWallet × WalletResult Bytes
  unfolding record_broadcast_candidate settle
  send_signed w tx result now settled =
      (settle (record_broadcast_candidate w tx now) tx result settled, result)
