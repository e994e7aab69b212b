-- ===== src/Wallet/Detailed.antt =====
-- `send_with_preheat_detailed` of src/wallet.rs, which has its own copy of what follows the broadcast.
use fast_wallet.Base.{
  ℕ, suc, ◌<◌, ◌≡◌, refl, sym, ap, ◌∙◌, Bool, true, false, ◌⊎◌, inl, inr, [], Option, some, u64_mod,
}
use fast_wallet.Errors.{Message, BroadcastFailure, WalletResult, ok, err}
use fast_wallet.Errors.Classify.{SyncBlock, is_definitive_precheck_rejection}
use fast_wallet.Transaction.{Bytes, nonce}
use fast_wallet.Transaction.Request.{TransactionRequest}
use fast_wallet.Transaction.Sign.{Transaction}
use fast_wallet.Ledger.{mark_broadcast_accepted}
use fast_wallet.Rpc.Send.{SendResult}
use fast_wallet.Wallet.{FastWallet, Setting}
use fast_wallet.Wallet.Send.{hash_number}
use fast_wallet.Wallet.Freed.{is_released_by}
use fast_wallet.Wallet.Kept.{fresh, left, send_with_preheat_frees}
use fast_wallet.Tracker.Invariant.{IsValid}
use fast_wallet.Tracker.Availability.{available}
use fast_wallet.Rpc.Verdicts.{is_ok}
use fast_wallet.Wallet.Preheat.{
  drop_context, PreheatedContext, mark_broadcasting, commit_reservation,
}
use fast_wallet.Wallet.Presend.{
  sign_with_preheat, handle_preheat_broadcast_error, settle_preheat, sent_with, send_with_preheat,
}

module _ (json : BroadcastFailure → Message) (chain_nonce : SyncBlock → WalletResult ℕ) where
  -- A success is recorded under the transaction's own hash.
  unfoldable pub settle_preheat_detailed :
      FastWallet
      → PreheatedContext
      → Transaction
      → WalletResult SendResult
      → ℕ
      → FastWallet × PreheatedContext
  unfolding commit_reservation handle_preheat_broadcast_error
  settle_preheat_detailed w ctx tx (ok sent) now =
      let (tracker, ctx') = commit_reservation w.tracker ctx in
      (
        record w {
          tracker = tracker;
          inflight =
              mark_broadcast_accepted w.inflight (nonce tx.typed_tx) (hash_number tx.hash) now;
        },
        ctx',
      )
  settle_preheat_detailed w ctx tx (err error) now =
      handle_preheat_broadcast_error json chain_nonce w ctx tx error now

  unfoldable pub sent_with_detailed :
      FastWallet × PreheatedContext × WalletResult Transaction
      → WalletResult SendResult
      → ℕ
      → FastWallet × PreheatedContext × WalletResult SendResult
  unfolding mark_broadcasting settle_preheat_detailed
  sent_with_detailed (w, ctx, err error) result now = (w, ctx, err error)
  sent_with_detailed (w, ctx, ok tx) result now =
      let (ctx', marked) = mark_broadcasting w.tracker ctx in
      let (w', ctx'') = settle_preheat_detailed w ctx' tx result now in
      elim marked [ ok done ↦ (w', ctx'', result) | err error ↦ (w, ctx', err error) ]

  unfoldable pub send_with_preheat_detailed :
      Setting
      → FastWallet
      → PreheatedContext
      → TransactionRequest
      → WalletResult SendResult
      → ℕ
      → ℕ
      → FastWallet × PreheatedContext × WalletResult SendResult
  unfolding sign_with_preheat sent_with_detailed
  send_with_preheat_detailed S w ctx request result now settled =
      sent_with_detailed (sign_with_preheat S w ctx request now) result settled

  -- A result that gives the nonce back.
  abbrev pub is_definitive : (BroadcastFailure → Message) → WalletResult SendResult → Bool
  is_definitive text (ok sent) = false
  is_definitive text (err error) = is_definitive_precheck_rejection text error

  -- The result that a plain send has, when its endpoint answers with the transaction's own hash.
  abbrev pub own_result : WalletResult Transaction → WalletResult SendResult → WalletResult Bytes
  own_result (ok tx) (ok sent) = ok tx.hash
  own_result (err e) (ok sent) = ok []
  own_result signed (err e) = err e

  abbrev pub kept : {A : Type 0} → FastWallet × PreheatedContext × A → FastWallet × PreheatedContext
  kept (w, ctx, r) = (w, ctx)

  -- The two ways on from a mark keep the same, whatever they return.
  marked_keeps :
      (marked : WalletResult {0} Unit) (x : FastWallet × PreheatedContext) (w : FastWallet)
      (ctx : PreheatedContext) (sent : WalletResult SendResult) (plain : WalletResult Bytes)
      → kept {A = WalletResult SendResult}
          (elim marked [ ok done ↦ (x.0, x.1, sent) | err error ↦ (w, ctx, err error) ])
        ≡ kept {A = WalletResult Bytes}
            (elim marked [ ok done ↦ (x.0, x.1, plain) | err error ↦ (w, ctx, err error) ])
  marked_keeps (ok done) x w ctx sent plain = refl
  marked_keeps (err error) x w ctx sent plain = refl

  sent-own_result :
      (w : FastWallet) (ctx : PreheatedContext) (signed : WalletResult Transaction)
      (result : WalletResult SendResult) (now : ℕ)
      → kept (sent_with_detailed (w, ctx, signed) result now)
        ≡ kept (sent_with json chain_nonce (w, ctx, signed) (own_result signed result) now)
  unfolding sent_with_detailed sent_with settle_preheat_detailed settle_preheat
  sent-own_result w ctx (err e) result now = refl
  sent-own_result w ctx (ok tx) (ok sent) now =
      let marked = mark_broadcasting w.tracker ctx in
      marked_keeps marked.1 (settle_preheat json chain_nonce w marked.0 tx (ok tx.hash) now) w
        marked.0 (ok sent) (ok tx.hash)
  sent-own_result w ctx (ok tx) (err e) now =
      let marked = mark_broadcasting w.tracker ctx in
      marked_keeps marked.1 (settle_preheat json chain_nonce w marked.0 tx (err e) now) w marked.0
        (err e) (err e)

  is_released_by-own_result :
      (signed : WalletResult Transaction) (result : WalletResult SendResult)
      → is_released_by json (own_result signed result) ≡ is_definitive json result
  is_released_by-own_result (ok tx) (ok sent) = refl
  is_released_by-own_result (err e) (ok sent) = refl
  is_released_by-own_result (ok tx) (err e) = refl
  is_released_by-own_result (err x) (err e) = refl

  -- In a wallet whose tracker is valid and whose counter has room in the word: send a request in detail with a context that was not used and
  -- whose guard, if there is one, is held, and drop the context. Whatever the broadcast's result and what the chain
  -- then answers, a nonce that is available then was so before; or it is the one that the context had reserved, and
  -- signing failed or the rejection was definitive.
  pub preheat_detailed_frees :
      (S : Setting) (w : FastWallet) (ctx : PreheatedContext) (reserved : Option ℕ)
      (request : TransactionRequest) (result : WalletResult SendResult) (now settled m : ℕ)
      → suc w.tracker.current < u64_mod
      → IsValid w.tracker
      → available
          (left (send_with_preheat_detailed S w (fresh ctx reserved) request result now settled))
          m
        ≡ true
      → (available w.tracker m ≡ true)
        ⊎ ((reserved ≡ some m)
            × ((is_ok (sign_with_preheat S w (fresh ctx reserved) request now).2 ≡ false)
                ⊎ (is_definitive json result ≡ true)))
  unfolding send_with_preheat_detailed send_with_preheat
  preheat_detailed_frees S w ctx reserved request result now settled m room v h =
      let (w1, ctx1, signed) = sign_with_preheat S w (fresh ctx reserved) request now in
      let plain = own_result signed result in
      let same =
        ap (λ k. drop_context k.0.tracker k.1) (sent-own_result w1 ctx1 signed result settled) in
      elim (send_with_preheat_frees json chain_nonce S w ctx reserved request plain now settled m
        room v (ap (λ t. available t m) (sym same) ∙ h)) [
          | inl before ↦ inl before
          | inr (own, inl unsigned) ↦ inr (own, inl unsigned)
          | inr (own, inr released) ↦
              inr (own, inr (sym (is_released_by-own_result signed result) ∙ released))
        ]
