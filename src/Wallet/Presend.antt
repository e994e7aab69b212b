-- ===== src/Wallet/Presend.antt =====
-- The preheated path of src/wallet.rs: reserving ahead, signing and sending with a context, and giving a context
-- up. The gas prices that were fetched, if any were asked for, are arguments.
use fast_wallet.Base.{
  ℕ, zero, suc, ◌||◌, List, [], ◌∷◌, Option, none, some, is_some, ◌==◌, if◌then◌else◌,
}
use fast_wallet.Errors.{Message, BroadcastFailure, WalletError, nonce_error, WalletResult, ok, err}
use fast_wallet.Errors.Text.{codes}
use fast_wallet.Errors.Classify.{is_definitive_precheck_rejection, SyncBlock}
use fast_wallet.Transaction.{Bytes, nonce}
use fast_wallet.Transaction.Request.{TransactionRequest}
use fast_wallet.Transaction.Sign.{Transaction, build_and_sign}
use fast_wallet.Tracker.{NonceTracker}
use fast_wallet.Ledger.{mark_broadcast_accepted, mark_released, mark_committed}
use fast_wallet.Reservation
use fast_wallet.Reservation.{ReservedNonce}
use fast_wallet.Wallet.{FastWallet, Setting}
use fast_wallet.Wallet.Send.{hash_number, record_signed_without_release, recover_nonce_error}
use fast_wallet.Wallet.Preheat.{
  PreheatedContext, new_context, new_warmup_only, mark_used, mark_broadcasting, commit_reservation,
  release_reservation, release_rejected_broadcast, reserved_nonce, with_gas,
}

-- The prices, when gas is fetched: of each the answer, if it was no error.
abbrev pub Fetched : Type 0
Fetched = Option (Option ℕ × Option ℕ)

abbrev pub with_fetched : PreheatedContext → Fetched → PreheatedContext
with_fetched ctx none = ctx
with_fetched ctx (some (gas_price, priority_fee)) = with_gas ctx gas_price priority_fee

unfoldable pub preheat : FastWallet → Fetched → ℕ → FastWallet × PreheatedContext
unfolding Reservation.reserve new_context with_gas
preheat w fetched now =
    let (tracker, reservation) = Reservation.reserve w.tracker in
    (record w { tracker = tracker }, with_fetched (new_context reservation now) fetched)

unfoldable pub preheat_warmup_only : Fetched → ℕ → PreheatedContext
unfolding new_warmup_only with_gas
preheat_warmup_only fetched now = with_fetched (new_warmup_only now) fetched

-- The nonces are reserved one after the other; the gas is fetched once.
unfoldable pub preheat_batch : ℕ → FastWallet → Fetched → ℕ → FastWallet × List PreheatedContext
unfolding preheat
preheat_batch zero w fetched now = (w, [])
preheat_batch (suc count) w fetched now =
    let (w', ctx) = preheat w fetched now in
    let (w'', contexts) = preheat_batch count w' fetched now in (w'', ctx ∷ contexts)

unfoldable pub cancel_preheat : FastWallet → PreheatedContext → FastWallet
unfolding release_reservation
cancel_preheat w ctx = record w { tracker = (release_reservation w.tracker ctx).0 }

unfoldable pub commit_preheat : FastWallet → PreheatedContext → ℕ → FastWallet × PreheatedContext
unfolding commit_reservation reserved_nonce
commit_preheat w ctx now =
    let (tracker, ctx') = commit_reservation w.tracker ctx in
    elim (reserved_nonce ctx) [
      | none ↦ (record w { tracker = tracker }, ctx')
      | some n ↦ (record w { tracker = tracker; inflight = mark_committed w.inflight n now }, ctx')
    ]

unfoldable pub release_preheat : FastWallet → PreheatedContext → ℕ → FastWallet × PreheatedContext
unfolding release_reservation reserved_nonce
release_preheat w ctx now =
    let (tracker, ctx', released) = release_reservation w.tracker ctx in
    elim (reserved_nonce ctx) [
      | none ↦ (record w { tracker = tracker }, ctx')
      | some n ↦ (
        record w {
          tracker = tracker;
          inflight =
              if released then mark_released w.inflight n "preheat_release" now else w.inflight;
        },
        ctx',
      )
    ]

-- A context without a guard reserves one now; the nonce is the guard's.
unfoldable pub bound : NonceTracker → PreheatedContext → NonceTracker × PreheatedContext × ℕ
unfolding Reservation.reserve
bound t ctx = elim ctx.reservation [
  | some r ↦ (t, ctx, r.nonce)
  | none ↦ let (t', r) = Reservation.reserve t in (t', record ctx { reservation = some r }, r.nonce)
]

-- The first price that there is.
abbrev else_preheated : Option ℕ → Option ℕ → Option ℕ
else_preheated (some price) preheated = some price
else_preheated none preheated = preheated

module _ (S : Setting) where
  -- The request as it is signed: preheated prices stand in for those that it leaves open.
  unfoldable pub filled : PreheatedContext → TransactionRequest → ℕ → TransactionRequest
  filled ctx request n = record request {
    nonce = n;
    chain_id = S.chain_id;
    gas_price =
        if is_some request.gas_price || is_some request.max_fee_per_gas
        then request.gas_price
        else ctx.gas_price;
    max_fee_per_gas = else_preheated request.max_fee_per_gas ctx.max_fee;
    max_priority_fee_per_gas = else_preheated request.max_priority_fee_per_gas ctx.priority_fee;
    gas_limit = if request.gas_limit == 0 then S.default_gas_limit else request.gas_limit;
  }

-- What is done with the outcome of signing.
unfoldable pub signed_with :
    FastWallet
    → PreheatedContext
    → WalletResult Transaction
    → ℕ
    → FastWallet × PreheatedContext × WalletResult Transaction
unfolding record_signed_without_release release_reservation
signed_with w ctx (ok tx) now =
    let (w', result) = record_signed_without_release w (ok tx) now in (w', ctx, result)
signed_with w ctx (err error) now =
    let (tracker, ctx', released) = release_reservation w.tracker ctx in
    let (w', result) =
      record_signed_without_release (record w { tracker = tracker }) (err error) now in
    (w', ctx', result)

unfoldable pub sign_with_preheat :
    Setting
    → FastWallet
    → PreheatedContext
    → TransactionRequest
    → ℕ
    → FastWallet × PreheatedContext × WalletResult Transaction
unfolding mark_used bound filled signed_with
sign_with_preheat S w ctx request now =
    let (ctx', first) = mark_used ctx in
    let (tracker, ctx'', n) = bound w.tracker ctx' in
    let signed = build_and_sign S.crypto (filled S ctx'' request n) in
    let done = signed_with (record w { tracker = tracker }) ctx'' signed now in
    if first then done else (w, ctx', err (nonce_error (codes "PreheatedContext already used")))

module _ (json : BroadcastFailure → Message) (chain_nonce : SyncBlock → WalletResult ℕ) where
  unfoldable pub handle_preheat_broadcast_error :
      FastWallet → PreheatedContext → Transaction → WalletError → ℕ → FastWallet × PreheatedContext
  unfolding release_rejected_broadcast recover_nonce_error
  handle_preheat_broadcast_error w ctx tx error now =
      let (tracker, ctx', released) = release_rejected_broadcast w.tracker ctx in
      if is_definitive_precheck_rejection json error
      then (if released
          then (
            record w {
              tracker = tracker;
              inflight =
                  mark_released w.inflight (nonce tx.typed_tx) "definitive_precheck_rejection" now;
            },
            ctx',
          )
          else (recover_nonce_error json chain_nonce (record w { tracker = tracker }) error, ctx'))
      else (recover_nonce_error json chain_nonce w error, ctx)

  -- The broadcast and what follows it.
  unfoldable pub settle_preheat :
      FastWallet
      → PreheatedContext
      → Transaction
      → WalletResult Bytes
      → ℕ
      → FastWallet × PreheatedContext
  unfolding commit_reservation handle_preheat_broadcast_error
  settle_preheat w ctx tx (ok tx_hash) now =
      let (tracker, ctx') = commit_reservation w.tracker ctx in
      (
        record w {
          tracker = tracker;
          inflight =
              mark_broadcast_accepted w.inflight (nonce tx.typed_tx) (hash_number tx_hash) now;
        },
        ctx',
      )
  settle_preheat w ctx tx (err error) now = handle_preheat_broadcast_error w ctx tx error now

  -- What follows signing: nothing is broadcast when the guard is settled already.
  unfoldable pub sent_with :
      FastWallet × PreheatedContext × WalletResult Transaction
      → WalletResult Bytes
      → ℕ
      → FastWallet × PreheatedContext × WalletResult Bytes
  unfolding mark_broadcasting settle_preheat
  sent_with (w, ctx, err error) result now = (w, ctx, err error)
  sent_with (w, ctx, ok tx) result now =
      let (ctx', marked) = mark_broadcasting w.tracker ctx in
      let (w', ctx'') = settle_preheat w ctx' tx result now in
      elim marked [ ok done ↦ (w', ctx'', result) | err error ↦ (w, ctx', err error) ]

  unfoldable pub send_with_preheat :
      Setting
      → FastWallet
      → PreheatedContext
      → TransactionRequest
      → WalletResult Bytes
      → ℕ
      → ℕ
      → FastWallet × PreheatedContext × WalletResult Bytes
  unfolding sign_with_preheat sent_with
  send_with_preheat S w ctx request result now settled =
      sent_with (sign_with_preheat S w ctx request now) result settled
