-- ===== src/Wallet/Verify.antt =====
-- `verify_broadcast_check_only` and `verify_broadcast` of src/wallet.rs. The polls that begin within the wait, and
-- what the network makes of the transaction that is sent again, are arguments.
use fast_wallet.Base.{
  ℕ, Bool, true, false, List, [], ◌∷◌, Option, none, some, if◌then◌else◌, unwrap_or,
}
use fast_wallet.Errors.{WalletResult, ok, err}
use fast_wallet.Fees.{rbf_min_bump_bps}
use fast_wallet.Transaction.{Bytes, nonce}
use fast_wallet.Transaction.Sign.{Crypto, Transaction, bumped_resign}
use fast_wallet.Ledger.{mark_mempool_seen, mark_rebroadcast_accepted}
use fast_wallet.Wallet.{FastWallet, Setting}
use fast_wallet.Wallet.Send.{hash_number, record_broadcast_candidate}

-- `unwrap_or(false)`.
abbrev pub is_found : WalletResult Bool → Bool
is_found (ok found) = found
is_found (err e) = false

unfoldable pub verify_broadcast_check_only :
    FastWallet → Transaction → Bytes → List (WalletResult Bool) → ℕ → FastWallet × Bool
verify_broadcast_check_only w tx tx_hash [] now = (w, false)
verify_broadcast_check_only w tx tx_hash (poll ∷ polls) now =
    let rest = verify_broadcast_check_only w tx tx_hash polls now in
    if is_found poll
    then (
      record w {
        inflight = mark_mempool_seen w.inflight (nonce tx.typed_tx) (hash_number tx_hash) now;
      },
      true,
    )
    else rest

pub record VerifyOutcome : Type 0 where
  pub in_mempool : Bool
  pub effective_hash : Bytes

-- `and_then(|r| r.ok())`.
abbrev resigned : Option (WalletResult Transaction) → Option Transaction
resigned (some (ok tx)) = some tx
resigned (some (err e)) = none
resigned none = none

-- The transaction with bumped fees, or the same one again.
unfoldable pub send_tx : Crypto → Transaction → Transaction
unfolding bumped_resign
send_tx C tx = unwrap_or (resigned (bumped_resign C tx rbf_min_bump_bps)) tx

-- What follows the second broadcast.
unfoldable pub rebroadcast :
    FastWallet → Transaction → WalletResult Bytes → ℕ → FastWallet × WalletResult VerifyOutcome
unfolding record_broadcast_candidate
rebroadcast w tx (err error) now = (w, err error)
rebroadcast w tx (ok hash) now =
    let recorded = record_broadcast_candidate w tx now in
    (
      record recorded {
        inflight =
            mark_rebroadcast_accepted recorded.inflight (nonce tx.typed_tx) (hash_number tx.hash)
              now;
      },
      ok (record { in_mempool = false; effective_hash = tx.hash }),
    )

unfoldable pub verify_broadcast :
    Setting
    → FastWallet
    → Transaction
    → Bytes
    → List (WalletResult Bool)
    → (Transaction → WalletResult Bytes)
    → ℕ
    → ℕ
    → FastWallet × WalletResult VerifyOutcome
unfolding verify_broadcast_check_only send_tx rebroadcast
verify_broadcast S w tx tx_hash polls broadcast now later =
    let (w', seen) = verify_broadcast_check_only w tx tx_hash polls now in
    let again = send_tx S.crypto tx in
    if seen
    then (w', ok (record { in_mempool = true; effective_hash = tx_hash }))
    else rebroadcast w' again (broadcast again) later
