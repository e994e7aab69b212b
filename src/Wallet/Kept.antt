-- ===== src/Wallet/Kept.antt =====
-- Which nonces the preheated path gives back, the context being dropped in the end.
use fast_wallet.Base.{
  ℕ, suc, ◌<◌, ◌≡◌, refl, sym, ap, ◌∙◌, true, false, ◌⊎◌, inl, inr, Option, none, some, not, ◌==◌,
  Bool-cases, Option-cases, and_left, u64_mod,
}
use fast_wallet.Errors.{Message, BroadcastFailure, nonce_error, WalletResult, ok, err}
use fast_wallet.Errors.Text.{codes}
use fast_wallet.Errors.Classify.{is_definitive_precheck_rejection, SyncBlock}
use fast_wallet.Transaction.{Bytes}
use fast_wallet.Transaction.Request.{TransactionRequest}
use fast_wallet.Transaction.Sign.{Transaction, build_and_sign}
use fast_wallet.Tracker
use fast_wallet.Tracker.{NonceTracker}
use fast_wallet.Tracker.Invariant.{IsValid, get_and_increment-IsValid}
use fast_wallet.Tracker.Availability.{
  available, get_and_increment-Takes, available-decrement_pending,
}
use fast_wallet.Reservation
use fast_wallet.Reservation.{ReservedNonce, held}
use fast_wallet.Rpc.Verdicts.{is_ok}
use fast_wallet.Wallet.{FastWallet, Setting}
use fast_wallet.Wallet.Send.{record_signed_without_release, record_broadcast_candidate}
use fast_wallet.Wallet.Freed.{is_released_by, recovery_frees_nothing, released_nonce}
use fast_wallet.Wallet.Preheat.{
  PreheatedContext, mark_used, drop_context, commit_reservation, release_reservation,
  release_rejected_broadcast, mark_broadcasting, take_and,
}
use fast_wallet.Wallet.Presend.{
  bound, filled, signed_with, sign_with_preheat, handle_preheat_broadcast_error, settle_preheat,
  sent_with, send_with_preheat,
}

abbrev guard_of : Option ℕ → Option ReservedNonce
guard_of none = none
guard_of (some n) = some (record { nonce = n; state = held })

-- A context that was not used, its guard held, or without a guard.
abbrev pub fresh : PreheatedContext → Option ℕ → PreheatedContext
fresh ctx reserved = record ctx { used = false; reservation = guard_of reserved }

-- The tracker once the context is dropped.
abbrev pub left {ℓ} : {A : Type ℓ} → FastWallet × PreheatedContext × A → NonceTracker
left (w, ctx, r) = drop_context w.tracker ctx

signed_with-is_ok :
    (w : FastWallet) (ctx : PreheatedContext) (signed : WalletResult Transaction) (now : ℕ)
    → is_ok (signed_with w ctx signed now).2 ≡ is_ok signed
unfolding signed_with record_signed_without_release
signed_with-is_ok w ctx (ok tx) now = refl
signed_with-is_ok w ctx (err e) now = refl

signed_with-used :
    (w : FastWallet) (ctx : PreheatedContext) (signed : WalletResult Transaction) (now : ℕ)
    → ctx.used ≡ true
    → (signed_with w ctx signed now).1.used ≡ true
unfolding signed_with record_signed_without_release release_reservation take_and
signed_with-used w ctx (ok tx) now h = h
signed_with-used w ctx (err e) now h = elim (Option-cases ctx.reservation) [
  | inl e ↦ rw e refl
  | inr (r, e) ↦ rw e refl
]

bound-used : (t : NonceTracker) (ctx : PreheatedContext) → (bound t ctx).1.used ≡ ctx.used
unfolding bound
bound-used t ctx = elim (Option-cases ctx.reservation) [
  | inl e ↦ rw e refl
  | inr (r, e) ↦ rw e refl
]

-- Signing leaves the context used, whatever it gives.
sign-used :
    (S : Setting) (w : FastWallet) (ctx : PreheatedContext) (request : TransactionRequest) (now : ℕ)
    → (sign_with_preheat S w ctx request now).1.used ≡ true
unfolding sign_with_preheat mark_used
sign-used S w ctx request now = elim (Bool-cases ctx.used) [
  | inl e ↦ rw e refl
  | inr e ↦ rw e (signed_with-used _ _ _ now (bound-used w.tracker (record ctx { used = true })))
]

used_signs_nothing :
    (S : Setting) (w : FastWallet) (ctx : PreheatedContext) (request : TransactionRequest) (now : ℕ)
    → ctx.used ≡ true
    → sign_with_preheat S w ctx request now
      ≡ (w, ctx, err (nonce_error (codes "PreheatedContext already used")))
unfolding sign_with_preheat mark_used
used_signs_nothing S w ctx request now e = rw e refl

-- A context signs at most once: whatever the first call of `sign_with_preheat` gives, a second one with the context, in any wallet
-- and for any request, gives the error that it is used and changes neither the wallet nor the context.
pub signs_once :
    (S S' : Setting) (w w' : FastWallet) (ctx : PreheatedContext)
    (request request' : TransactionRequest) (now now' : ℕ)
    → sign_with_preheat S' w' (sign_with_preheat S w ctx request now).1 request' now' ≡ (
      w',
      (sign_with_preheat S w ctx request now).1,
      err (nonce_error (codes "PreheatedContext already used")),
    )
signs_once S S' w w' ctx request request' now now' =
    used_signs_nothing S' w' _ request' now' (sign-used S w ctx request now)

module _ (json : BroadcastFailure → Message) (chain_nonce : SyncBlock → WalletResult ℕ) where
  -- A held guard behind signing: its nonce is given back by a failure or by a definitive rejection.
  held_frees :
      (w : FastWallet) (ctx : PreheatedContext) (n : ℕ) (signed : WalletResult Transaction)
      (result : WalletResult Bytes) (now settled m : ℕ)
      → IsValid w.tracker
      → available
          (left (
            sent_with json chain_nonce
              (signed_with w (record ctx { reservation = guard_of (some n) }) signed now)
              result
              settled))
          m
        ≡ true
      → (available w.tracker m ≡ true)
        ⊎ ((m ≡ n) × ((is_ok signed ≡ false) ⊎ (is_released_by json result ≡ true)))
  unfolding sent_with signed_with settle_preheat handle_preheat_broadcast_error drop_context
      commit_reservation release_reservation release_rejected_broadcast mark_broadcasting take_and
      Reservation.mark_broadcasting Reservation.commit Reservation.release
      Reservation.release_rejected_broadcast Reservation.drop record_signed_without_release
      record_broadcast_candidate Tracker.confirm
  held_frees w ctx n (err error) result now settled m v h =
      elim (released_nonce w.tracker n m v h) [
        | inl own ↦ inr (own, inl refl)
        | inr before ↦ inl before
      ]
  held_frees w ctx n (ok tx) (ok hash) now settled m v h =
      inl (sym (available-decrement_pending w.tracker m) ∙ h)
  held_frees w ctx n (ok tx) (err error) now settled m v h =
      elim (Bool-cases (is_definitive_precheck_rejection json error)) [
        | inl definitive ↦ elim (released_nonce w.tracker n m v (rw definitive at h)) [
          | inl own ↦ inr (own, inr definitive)
          | inr before ↦ inl before
        ]
        | inr retained ↦ inl (
            recovery_frees_nothing json chain_nonce (record_broadcast_candidate w tx now) error m v
              (rw retained at h))
      ]

  -- In a wallet whose tracker is valid and whose counter has room in the word: send a request with a context that was not used and whose guard, if there is one, is held, and drop the
  -- context. Whatever the broadcast's result and what the chain then answers, a nonce that is available then was so before; or it is the one that
  -- the context had reserved, and signing failed or the rejection was definitive.
  pub send_with_preheat_frees :
      (S : Setting) (w : FastWallet) (ctx : PreheatedContext) (reserved : Option ℕ)
      (request : TransactionRequest) (result : WalletResult Bytes) (now settled m : ℕ)
      → suc w.tracker.current < u64_mod
      → IsValid w.tracker
      → available
          (left (
            send_with_preheat json chain_nonce S w (fresh ctx reserved) request result now settled))
          m
        ≡ true
      → (available w.tracker m ≡ true)
        ⊎ ((reserved ≡ some m)
            × ((is_ok (sign_with_preheat S w (fresh ctx reserved) request now).2 ≡ false)
                ⊎ (is_released_by json result ≡ true)))
  unfolding send_with_preheat sign_with_preheat mark_used bound Reservation.reserve
      Reservation.guard
  send_with_preheat_frees S w ctx (some n) request result now settled m room v h =
      let c : PreheatedContext = record (fresh ctx (some n)) { used = true } in
      let signed = build_and_sign S.crypto (filled S c request n) in
      elim (held_frees w c n signed result now settled m v h) [
        | inl before ↦ inl before
        | inr (own, inl unsigned) ↦
            inr (ap some (sym own), inl (signed_with-is_ok w c signed now ∙ unsigned))
        | inr (own, inr definitive) ↦ inr (ap some (sym own), inr definitive)
      ]
  send_with_preheat_frees S w ctx none request result now settled m room v h =
      let t = w.tracker in
      let t1 = (Tracker.get_and_increment t).0 in
      let n = (Tracker.get_and_increment t).1 in
      let (was, _, _, others) = get_and_increment-Takes t room v in
      let w1 : FastWallet = record w { tracker = t1 } in
      let c : PreheatedContext = record (fresh ctx (some n)) { used = true } in
      let signed = build_and_sign S.crypto (filled S c request n) in
      let v1 = get_and_increment-IsValid t room v in
      inl (elim (held_frees w1 c n signed result now settled m v1 h) [
        | inl before ↦ and_left (available t m) (not (m == n)) (sym (others m) ∙ before)
        | inr (own, _) ↦ rw own was
      ])
