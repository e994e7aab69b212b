-- ===== src/Wallet/Replace.antt =====
-- `replace_stalled_nonce` of src/wallet.rs. The call waits for the network three times; what the other tasks
-- do to the wallet meanwhile, the network's answers and the clock's readings are arguments. Durations are
-- nanoseconds.
use fast_wallet.Base.{
  ℕ, ◌-◌, Bool, false, ◌&&◌, Option, none, some, ltb, leb, ◌==◌, if◌then◌else◌, max,
}
use fast_wallet.Errors.{WalletResult, ok, err}
use fast_wallet.Fees.{rbf_min_bump_bps, compute_cancel_fees}
use fast_wallet.Transaction.{Bytes}
use fast_wallet.Transaction.Request.{TransactionRequest, new_request}
use fast_wallet.Transaction.Sign.{Transaction, build_and_sign}
use fast_wallet.Tracker
use fast_wallet.Ledger.{
  InflightNonceSnapshot, record_signed, mark_rebroadcast_accepted, prune_consumed,
  lowest_unresolved_at_or_above,
}
use fast_wallet.Wallet.{FastWallet, Setting}
use fast_wallet.Wallet.Send.{hash_number}

abbrev pub stall_replace_window : ℕ
stall_replace_window = 3_000_000_000

abbrev pub stall_replace_min_head_age : ℕ
stall_replace_min_head_age = 30_000_000_000

pub data ReplaceOutcome : Type 0 where
  cancelled : (nonce : ℕ) (tx_hash : Bytes) → ReplaceOutcome
  not_stalled no_candidate race_aborted : ReplaceOutcome

-- What the call meets: the answers, the clock at the start, at the ledger's snapshot and at the end, and
-- the other tasks' steps during each wait.
pub record Meets : Type 0 where
  pub started : ℕ
  pub during_latest : FastWallet → FastWallet
  pub chain_latest : WalletResult ℕ
  pub observed : ℕ
  pub during_fees : FastWallet → FastWallet
  pub priority_fee : WalletResult ℕ
  pub gas_price : WalletResult ℕ
  pub during_broadcast : FastWallet → FastWallet
  pub broadcast : Bytes → WalletResult Bytes
  pub recorded : ℕ
  pub finished : ℕ

abbrev pub Replaced : Type 0
Replaced = FastWallet × WalletResult ReplaceOutcome

-- The same nonce was replaced within the window; a duration since a later instant is zero.
abbrev pub recently_replaced : Option (ℕ × ℕ) → ℕ → ℕ → Bool
recently_replaced none chain_next now = false
recently_replaced (some (nonce, at)) chain_next now =
    nonce == chain_next && ltb (now - at) stall_replace_window

module _ (S : Setting) (M : Meets) (chain_next tip_bump_bps : ℕ) where
  unfoldable pub cancel_request : ℕ × ℕ → TransactionRequest
  cancel_request (tip, max_fee) = record new_request {
    to = some S.address;
    value = 0;
    gas_limit = 21_000;
    max_priority_fee_per_gas = some tip;
    max_fee_per_gas = some max_fee;
    nonce = chain_next;
    chain_id = S.chain_id;
  }

  unfoldable pub cancel_fees : InflightNonceSnapshot → ℕ → ℕ → ℕ × ℕ
  cancel_fees stranded network_tip network_gas =
      compute_cancel_fees network_tip network_gas stranded.max_priority_seen stranded.max_fee_seen
        (max tip_bump_bps rbf_min_bump_bps)

  -- The broadcast's result.
  unfoldable pub accepted_cancel : FastWallet → ℕ × ℕ → Bytes → WalletResult Bytes → Replaced
  accepted_cancel w fees tx_hash (err error) = (w, err error)
  accepted_cancel w (tip, max_fee) tx_hash (ok hash) =
      let signed =
        record_signed w.inflight chain_next (hash_number tx_hash) (some max_fee) (some tip)
          M.recorded in
      (
        record w {
          inflight = mark_rebroadcast_accepted signed chain_next (hash_number tx_hash) M.recorded;
          last_stall_replace = some (chain_next, M.finished);
        },
        ok (cancelled chain_next tx_hash),
      )

  unfoldable pub broadcast_cancel : FastWallet → ℕ × ℕ → WalletResult Transaction → Replaced
  unfolding accepted_cancel
  broadcast_cancel w fees (err error) = (w, err error)
  broadcast_cancel w fees (ok tx) =
      accepted_cancel (M.during_broadcast w) fees tx.hash (M.broadcast tx.encoded)

  -- Behind the fees, with no wait before the broadcast.
  unfoldable pub guarded : FastWallet → ℕ × ℕ → Replaced
  unfolding cancel_request broadcast_cancel
  guarded w fees =
      if leb (Tracker.peek w.tracker) chain_next
      then (w, ok race_aborted)
      else broadcast_cancel w fees (build_and_sign S.crypto (cancel_request fees))

  unfoldable pub with_fees :
      FastWallet → InflightNonceSnapshot → WalletResult ℕ → WalletResult ℕ → Replaced
  unfolding cancel_fees guarded
  with_fees w stranded (err error) gas = (w, err error)
  with_fees w stranded (ok tip) (err error) = (w, err error)
  with_fees w stranded (ok tip) (ok gas) = guarded w (cancel_fees stranded tip gas)

  -- The head of the line in the ledger.
  unfoldable pub with_head : FastWallet → Option InflightNonceSnapshot → Replaced
  unfolding with_fees
  with_head w none = (w, ok no_candidate)
  with_head w (some stranded) =
      if stranded.nonce == chain_next
      then (if ltb stranded.age stall_replace_min_head_age
          then (w, ok not_stalled)
          else with_fees (M.during_fees w) stranded M.priority_fee M.gas_price)
      else (w, ok no_candidate)

  unfoldable pub with_latest : FastWallet → WalletResult ℕ → Replaced
  unfolding with_head
  with_latest w (err error) = (w, err error)
  with_latest w (ok latest) =
      if latest == chain_next
      then (let inflight = prune_consumed w.inflight chain_next in
          with_head (record w { inflight = inflight })
            (lowest_unresolved_at_or_above inflight chain_next M.observed))
      else (w, ok not_stalled)

  unfoldable pub replace_stalled_nonce : FastWallet → Replaced
  unfolding with_latest
  replace_stalled_nonce w =
      if recently_replaced w.last_stall_replace chain_next M.started
      then (w, ok not_stalled)
      else with_latest (M.during_latest w) M.chain_latest
