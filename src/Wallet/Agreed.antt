-- ===== src/Wallet/Agreed.antt =====
-- A nonce that a broadcast gives back was refused by every endpoint.
use mathlib.Core.List.{Permᴰ, Memᴰ}
use mathlib.Core.List.Permᴰ
use fast_wallet.Base.{
  ℕ, ◌≡◌, refl, sym, ◌∙◌, Bool, true, false, ◌⊎◌, inl, inr, List, [], ◌∷◌, any, Bool-cases, ◌||◌,
  arith, ◌<◌, length,
}
use fast_wallet.Base.Perms.{Memᴰ-Permᴰ, Memᴰ-get_elem?, Memᴰ-right}
use fast_wallet.Errors.{
  Message, rejection, BroadcastFailure, WalletError, broadcast_failed, rpc_error, WalletResult, ok,
  err,
}
use fast_wallet.Errors.Classify.{failure_class, is_definitive_precheck_rejection, SyncBlock}
use fast_wallet.Errors.Release.{definitive_broadcast_iff}
use fast_wallet.Errors.Display.{to_string}
use fast_wallet.Rpc.Redact.{redact_urls}
use fast_wallet.Rpc.Send.{HashTools, SendResult}
use fast_wallet.Rpc.Fanout.{EndpointReply, new_verdict, broadcast_transaction_observed}
use fast_wallet.Rpc.Verdicts.{
  WalletResult-cases, is_taken, verdict_of, verdicts, fan_out_succeeds, fan_out-verdicts,
}
use fast_wallet.Wallet.Broadcast.{
  Permit, granted, wait_ends, closed, batch, broadcast_signed_result,
}
use mathlib.Core.Bool.{true≢false}
use fast_wallet.Errors.{timeout}
use fast_wallet.Errors.Text.{codes, contains_any, lowercase}
use fast_wallet.Transaction.{nonce}
use fast_wallet.Transaction.Sign.{Transaction}
use fast_wallet.Tracker.Invariant.{IsValid}
use fast_wallet.Tracker.Availability.{available}
use fast_wallet.Wallet.{FastWallet}
use fast_wallet.Wallet.Send.{record_broadcast_candidate}
use fast_wallet.Wallet.Broadcast.{settle_detailed, send_signed_detailed}
use fast_wallet.Wallet.Freed.{recovery_frees_nothing, released_nonce}

-- The endpoint refused the transaction, and the refusal that is reported of it is definitive.
abbrev pub RefusedBy : (BroadcastFailure → Message) → EndpointReply → Type 0
RefusedBy json r =
    (e : WalletError) × (r.result ≡ err e)
    × (failure_class e ≡ rejection)
    × (is_definitive_precheck_rejection json (rpc_error (redact_urls (to_string json e))) ≡ true)

-- A result that gives the transaction's nonce back.
abbrev pub is_released : (BroadcastFailure → Message) → WalletResult SendResult → Bool
is_released json (ok sent) = false
is_released json (err error) = is_definitive_precheck_rejection json error

or_rest : (a b : Bool) → (a || b) ≡ false → b ≡ false
or_rest true b h = cc
or_rest false b h = h

module _ (json : BroadcastFailure → Message) where
  -- The verdict on a reply that is not a success is among the verdicts.
  verdict-Memᴰ :
      (r : EndpointReply) (rs : List EndpointReply) (e : WalletError)
      → r.result ≡ err e
      → Memᴰ r rs
      → Memᴰ (new_verdict json r.url e r.elapsed_ms) (verdicts json rs)
  verdict-Memᴰ r _ e h (Memᴰ.head {xs = xs} same) =
      let own : verdict_of json r ≡ (new_verdict json r.url e r.elapsed_ms ∷ []) = rw h refl in
      rw (sym same, own) (Memᴰ.head refl)
  verdict-Memᴰ r _ e h (Memᴰ.tail {x = x} {xs = xs} m) =
      Memᴰ-right (verdict_of json x) (verdicts json xs) _ (verdict-Memᴰ r xs e h m)

  not_taken :
      (r : EndpointReply) (rs : List EndpointReply)
      → any is_taken rs ≡ false
      → Memᴰ r rs
      → (e : WalletError) × (r.result ≡ err e)
  not_taken r _ h (Memᴰ.head {xs = xs} same) = elim (WalletResult-cases r.result) [
    | inl (sent, e) ↦ let wrong : true ≡ false = rw (sym same, e) at h in cc
    | inr failed ↦ failed
  ]
  not_taken r _ h (Memᴰ.tail {x = x} {xs = xs} m) =
      not_taken r xs (or_rest (is_taken x) (any is_taken xs) h) m

  -- A broadcast of which every verdict is definitive was refused by every endpoint.
  refusal_of_all :
      (failure : BroadcastFailure) (r : EndpointReply) (rs : List EndpointReply)
      → Permᴰ failure.endpoints (verdicts json rs)
      → any is_taken rs ≡ false
      → is_definitive_precheck_rejection json (broadcast_failed failure) ≡ true
      → Memᴰ r rs
      → RefusedBy json r
  unfolding new_verdict
  refusal_of_all failure r rs same none_taken definitive m =
      let (e, failed) = not_taken r rs none_taken m in
      let v = new_verdict json r.url e r.elapsed_ms in
      let among = Memᴰ-Permᴰ v (Permᴰ.symm same) (verdict-Memᴰ r rs e failed m) in
      let (i, at) = Memᴰ-get_elem? v failure.endpoints among in
      let (class, text) = ((definitive_broadcast_iff json failure).0 definitive).1 i v at in
      (e, failed, class, text)

  wait_ends_kept : is_definitive_precheck_rejection json timeout ≡ false
  unfolding is_definitive_precheck_rejection
  wait_ends_kept = refl

  closed_kept : is_definitive_precheck_rejection json (rpc_error (codes "Semaphore closed")) ≡ false
  unfolding is_definitive_precheck_rejection contains_any lowercase
  closed_kept = refl

  no_endpoint_kept :
      is_definitive_precheck_rejection json (rpc_error (codes "No RPC endpoints")) ≡ false
  unfolding is_definitive_precheck_rejection contains_any lowercase
  no_endpoint_kept = refl

  settle_detailed_frees :
      (chain_nonce : SyncBlock → WalletResult ℕ) (w : FastWallet) (tx : Transaction)
      (result : WalletResult SendResult) (now settled m : ℕ)
      → IsValid w.tracker
      → available
          (settle_detailed json chain_nonce
            (record_broadcast_candidate w tx now)
            tx
            result
            settled).tracker
          m
        ≡ true
      → (available w.tracker m ≡ true)
        ⊎ ((m ≡ nonce tx.typed_tx) × (is_released json result ≡ true))
  unfolding settle_detailed record_broadcast_candidate
  settle_detailed_frees chain_nonce w tx (ok sent) now settled m v h = inl h
  settle_detailed_frees chain_nonce w tx (err error) now settled m v h =
      elim (Bool-cases (is_definitive_precheck_rejection json error)) [
        | inl definitive ↦
            elim (released_nonce w.tracker (nonce tx.typed_tx) m v (rw definitive at h)) [
              | inl own ↦ inr (own, definitive)
              | inr before ↦ inl before
            ]
        | inr retained ↦ inl (
            recovery_frees_nothing json chain_nonce (record_broadcast_candidate w tx now) error m v
              (rw retained at h))
      ]

module _ (json : BroadcastFailure → Message) (H : HashTools) (fanout_ms : ℕ)
    (arrival : List EndpointReply → List EndpointReply)
    (arrives : (rs : List EndpointReply) → Permᴰ (arrival rs) rs) where
  -- The network took part, and every endpoint refused.
  agreed :
      (sign_ms wait : ℕ) (permit : Permit) (replies : List EndpointReply)
      → is_released json
          (broadcast_signed_result json H fanout_ms arrival sign_ms wait permit (batch replies))
        ≡ true
      → (0 < length replies) × ((r : EndpointReply) → Memᴰ r replies → RefusedBy json r)
  unfolding broadcast_signed_result
  agreed sign_ms wait wait_ends replies h = absurd (true≢false (sym h ∙ wait_ends_kept json))
  agreed sign_ms wait closed replies h = absurd (true≢false (sym h ∙ closed_kept json))
  agreed sign_ms wait granted [] h = absurd (true≢false (sym h ∙ no_endpoint_kept json))
  agreed sign_ms wait granted (r ∷ rs) h = elim (Bool-cases (any is_taken (r ∷ rs))) [
    | inl some_taken ↦
        let went = fan_out_succeeds json H fanout_ms arrival arrives (r ∷ rs) ∙ some_taken in
        elim (WalletResult-cases
          (broadcast_transaction_observed json H fanout_ms arrival (r ∷ rs))) [
            | inl (sent, e) ↦ absurd (true≢false (sym (rw e at h)))
            | inr (why, e) ↦ absurd (true≢false (sym (rw e at went)))
          ]
    | inr none_taken ↦
        let (failure, same, perm) =
          fan_out-verdicts json H fanout_ms arrival arrives r rs none_taken in
        (
          omega arith,
          λ x m. refusal_of_all json failure x (r ∷ rs) perm none_taken (rw same at h) m,
        )
  ]

  -- With a valid tracker, whatever the endpoints reply, in whatever order, and whatever the chain then answers, a nonce that is available after `send_signed_detailed` through a batch
  -- client was so before; or it is the transaction's own, there is an endpoint, and every endpoint's error is a rejection, no transport failure, whose
  -- redacted text is definitive.
  pub send_detailed_frees :
      (chain_nonce : SyncBlock → WalletResult ℕ) (w : FastWallet) (tx : Transaction)
      (sign_ms wait : ℕ) (permit : Permit) (replies : List EndpointReply) (now settled m : ℕ)
      → IsValid w.tracker
      → available
          (send_signed_detailed json chain_nonce w tx
            (broadcast_signed_result json H fanout_ms arrival sign_ms wait permit (batch replies))
            now
            settled).0.tracker
          m
        ≡ true
      → (available w.tracker m ≡ true)
        ⊎ ((m ≡ nonce tx.typed_tx)
            × (0 < length replies)
            × ((r : EndpointReply) → Memᴰ r replies → RefusedBy json r))
  unfolding send_signed_detailed
  send_detailed_frees chain_nonce w tx sign_ms wait permit replies now settled m v h =
      elim (settle_detailed_frees json chain_nonce w tx _ now settled m v h) [
        | inl before ↦ inl before
        | inr (own, released) ↦
            let (some_endpoint, all_refused) = agreed sign_ms wait permit replies released in
            inr (own, some_endpoint, all_refused)
      ]
