-- ===== src/Wallet/Prices.antt =====
-- Which price a preheated transaction pays.
use fast_wallet.Base.{
  ℕ, ◌≡◌, refl, sym, ap, ◌∙◌, true, Option, none, some, is_some, Bool-cases, Option-cases, inl, inr,
}
use fast_wallet.Errors.{WalletResult, ok, err}
use fast_wallet.Transaction.{TypedTransaction, legacy, eip2930, eip1559, max_fee_per_gas}
use fast_wallet.Transaction.Request.{TransactionRequest, build}
use fast_wallet.Transaction.Sign.{Transaction}
use fast_wallet.Tracker
use fast_wallet.Tracker.{NonceTracker}
use fast_wallet.Rpc.Verdicts.{ok_same, err_ok}
use fast_wallet.Wallet.{FastWallet, Setting}
use fast_wallet.Wallet.Send.{completed, sign, record_signed_without_release}
use fast_wallet.Wallet.Nonces.{build-signed, kept_signed}
use fast_wallet.Wallet.Preheat.{PreheatedContext, mark_used}
use fast_wallet.Wallet.Presend.{bound, filled, signed_with, sign_with_preheat}

-- The price that a transaction names for each unit of gas, in the two forms that name one.
abbrev pub gas_price_of : TypedTransaction → Option ℕ
gas_price_of (legacy tx) = some tx.gas_price
gas_price_of (eip2930 tx) = some tx.gas_price
gas_price_of (eip1559 tx) = none

-- A request without EIP-1559 fees is a transaction that pays its gas price.
build-price :
    (q : TransactionRequest) (typed : TypedTransaction) (price : ℕ)
    → q.gas_price ≡ some price
    → q.max_fee_per_gas ≡ none
    → q.max_priority_fee_per_gas ≡ none
    → build q ≡ ok typed
    → gas_price_of typed ≡ some price
unfolding build
build-price q typed price named no_fee no_tip e = elim (Bool-cases (is_some q.access_list)) [
  | inl listed ↦
      let same = ok_same (rw (no_fee, no_tip, named, listed) at e) in ap gas_price_of (sym same)
  | inr plain ↦
      let same = ok_same (rw (no_fee, no_tip, named, plain) at e) in ap gas_price_of (sym same)
]

-- A request with a maximum fee is an EIP-1559 transaction with that fee.
build-fee :
    (q : TransactionRequest) (typed : TypedTransaction) (fee : ℕ)
    → q.max_fee_per_gas ≡ some fee
    → build q ≡ ok typed
    → (gas_price_of typed ≡ none) × (max_fee_per_gas typed ≡ some fee)
unfolding build max_fee_per_gas
build-fee q typed fee capped e =
    let same = ok_same (rw capped at e) in
    (ap gas_price_of (sym same), ap max_fee_per_gas (sym same))

-- The fee of the context, behind the reservation of a nonce.
max_fee-bound : (t : NonceTracker) (ctx : PreheatedContext) → (bound t ctx).1.max_fee ≡ ctx.max_fee
unfolding bound
max_fee-bound t ctx = elim (Option-cases ctx.reservation) [
  | inl e ↦ rw e refl
  | inr (r, e) ↦ rw e refl
]

result-signed_with :
    (w : FastWallet) (ctx : PreheatedContext) (signed : WalletResult Transaction) (now : ℕ)
    → (signed_with w ctx signed now).2 ≡ signed
unfolding signed_with record_signed_without_release
result-signed_with w ctx (ok tx) now = refl
result-signed_with w ctx (err e) now = refl

-- What signing with a context gives is the filled request, built and signed.
preheated-built :
    (S : Setting) (w : FastWallet) (ctx : PreheatedContext) (request : TransactionRequest)
    (tx : Transaction) (now : ℕ)
    → (sign_with_preheat S w ctx request now).2 ≡ ok tx
    → build (
        filled S
          (bound w.tracker (record ctx { used = true })).1
          request
          (bound w.tracker (record ctx { used = true })).2)
      ≡ ok tx.typed_tx
unfolding sign_with_preheat mark_used
preheated-built S w ctx request tx now e = elim (Bool-cases ctx.used) [
  | inl used ↦ absurd (err_ok (rw used at e))
  | inr first ↦ build-signed S.crypto _ tx (sym (result-signed_with _ _ _ now) ∙ (rw first at e))
]

plain-built :
    (S : Setting) (w : FastWallet) (request : TransactionRequest) (tx : Transaction) (now : ℕ)
    → (sign S w request now).1 ≡ ok tx
    → build (completed S request (Tracker.get_and_increment w.tracker).1) ≡ ok tx.typed_tx
unfolding sign
plain-built S w request tx now e =
    build-signed S.crypto _ tx
      (kept_signed _ (sign S w request now).0 _ now _ tx
        (ap (λ r. ((sign S w request now).0, r)) e)).0

-- A request that names a gas price and neither of the EIP-1559 fees: signed by `sign`, it is a transaction that pays the named
-- price. Signed by `sign_with_preheat` with a context that has a maximum fee, it is an EIP-1559
-- transaction, which names no gas price, and its maximum fee is the context's.
pub preheated_fee_wins :
    (S : Setting) (w w' : FastWallet) (ctx : PreheatedContext) (request : TransactionRequest)
    (plain tx : Transaction) (price fee now now' : ℕ)
    → request.gas_price ≡ some price
    → request.max_fee_per_gas ≡ none
    → request.max_priority_fee_per_gas ≡ none
    → ctx.max_fee ≡ some fee
    → (sign S w request now).1 ≡ ok plain
    → (sign_with_preheat S w' ctx request now').2 ≡ ok tx
    → (gas_price_of plain.typed_tx ≡ some price)
      × (gas_price_of tx.typed_tx ≡ none)
      × (max_fee_per_gas tx.typed_tx ≡ some fee)
unfolding completed filled
preheated_fee_wins S w w' ctx request plain tx price fee now now' named unset untipped preheated e
      e' =
    let kept = max_fee-bound w'.tracker (record ctx { used = true }) ∙ preheated in
    let (no_price, capped) =
      build-fee (filled S (bound w'.tracker (record ctx { used = true })).1 request _) tx.typed_tx
        fee (rw (unset, kept) refl) (preheated-built S w' ctx request tx now' e') in
    (
      build-price (completed S request _) plain.typed_tx price named unset untipped
          (plain-built S w request plain now e),
      no_price,
      capped,
    )
