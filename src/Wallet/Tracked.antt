-- ===== src/Wallet/Tracked.antt =====
-- What `verify_broadcast` tells its caller to track.
use fast_wallet.Base.{
  ℕ, ◌≡◌, refl, sym, ap, ◌∙◌, Bool, true, false, ◌⊎◌, inl, inr, List, [], ◌∷◌, any, none, some,
  Bool-cases, Option-cases,
}
use fast_wallet.Errors.{WalletError, WalletResult, ok, err}
use fast_wallet.Fees.{rbf_min_bump_bps}
use fast_wallet.Transaction.{Bytes, TypedTransaction, nonce, chain_id, with_bumped_fees}
use fast_wallet.Transaction.Identity.{bump-keeps, intent}
use fast_wallet.Transaction.Sign.{Crypto, Transaction, sign_typed, sign, bumped_resign}
use fast_wallet.Rpc.Verdicts.{WalletResult-cases, ok_same, err_ok}
use fast_wallet.Wallet.{FastWallet, Setting}
use fast_wallet.Wallet.Send.{record_broadcast_candidate}
use fast_wallet.Wallet.Verify.{
  is_found, verify_broadcast_check_only, VerifyOutcome, send_tx, rebroadcast, verify_broadcast,
}

-- Another signature over the same nonce, chain, recipient, value and payload.
abbrev pub Replaces : Transaction → Transaction → Type 0
Replaces tx again =
    (nonce again.typed_tx ≡ nonce tx.typed_tx)
    × (chain_id again.typed_tx ≡ chain_id tx.typed_tx)
    × (intent again.typed_tx ≡ intent tx.typed_tx)

module _ (C : Crypto) where
  typed-sign :
      (typed : TypedTransaction) (tx : Transaction) → sign C typed ≡ ok tx → tx.typed_tx ≡ typed
  unfolding sign
  typed-sign typed tx h = elim (WalletResult-cases (sign_typed C typed)) [
    | inl (sig, e) ↦ sym (ap (λ t. t.typed_tx) (ok_same (rw e at h)))
    | inr (why, e) ↦ absurd (err_ok (rw e at h))
  ]

  not_bumped : (tx : Transaction) → bumped_resign C tx rbf_min_bump_bps ≡ none → send_tx C tx ≡ tx
  unfolding send_tx
  not_bumped tx e = rw e refl

  not_signed :
      (tx : Transaction) (why : WalletError)
      → bumped_resign C tx rbf_min_bump_bps ≡ some (err why)
      → send_tx C tx ≡ tx
  unfolding send_tx
  not_signed tx why e = rw e refl

  signed_again :
      (tx again : Transaction)
      → bumped_resign C tx rbf_min_bump_bps ≡ some (ok again)
      → send_tx C tx ≡ again
  unfolding send_tx
  signed_again tx again e = rw e refl

  resign_none :
      (tx : Transaction)
      → with_bumped_fees tx.typed_tx rbf_min_bump_bps ≡ none
      → bumped_resign C tx rbf_min_bump_bps ≡ none
  unfolding bumped_resign
  resign_none tx e = rw (bumped_resign, e) refl

  resign_some :
      (tx : Transaction) (bumped : TypedTransaction)
      → with_bumped_fees tx.typed_tx rbf_min_bump_bps ≡ some bumped
      → bumped_resign C tx rbf_min_bump_bps ≡ some (sign C bumped)
  unfolding bumped_resign
  resign_some tx bumped e = rw (bumped_resign, e) refl

  send_tx-Replaces : (tx : Transaction) → Replaces tx (send_tx C tx)
  send_tx-Replaces tx = elim (Option-cases (with_bumped_fees tx.typed_tx rbf_min_bump_bps)) [
    | inl e ↦ rw (not_bumped tx (resign_none tx e)) (refl, refl, refl)
    | inr (bumped, e) ↦ elim (WalletResult-cases (sign C bumped)) [
      | inl (again, s) ↦
          let same = typed-sign bumped again s in
          let (c, n, i, g) = bump-keeps tx.typed_tx bumped rbf_min_bump_bps e in
          rw (signed_again tx again (resign_some tx bumped e ∙ ap some s))
            (ap nonce same ∙ n, ap chain_id same ∙ c, ap intent same ∙ i)
      | inr (why, s) ↦
          rw (not_signed tx why (resign_some tx bumped e ∙ ap some s)) (refl, refl, refl)
    ]
  ]

check-tracker :
    (w : FastWallet) (tx : Transaction) (tx_hash : Bytes) (polls : List (WalletResult Bool))
    (now : ℕ)
    → (verify_broadcast_check_only w tx tx_hash polls now).0.tracker ≡ w.tracker
unfolding verify_broadcast_check_only
check-tracker w tx tx_hash [] now = refl
check-tracker w tx tx_hash (poll ∷ polls) now = elim (Bool-cases (is_found poll)) [
  | inl e ↦ rw e refl
  | inr e ↦ rw e (check-tracker w tx tx_hash polls now)
]

check-any :
    (w : FastWallet) (tx : Transaction) (tx_hash : Bytes) (polls : List (WalletResult Bool))
    (now : ℕ)
    → (verify_broadcast_check_only w tx tx_hash polls now).1 ≡ any is_found polls
unfolding verify_broadcast_check_only
check-any w tx tx_hash [] now = refl
check-any w tx tx_hash (poll ∷ polls) now = elim (Bool-cases (is_found poll)) [
  | inl e ↦ rw e refl
  | inr e ↦ rw e (check-any w tx tx_hash polls now)
]

-- The outcome names the transaction that was found, or one that replaces it and was accepted; an error is the second
-- broadcast's.
abbrev pub Tracks :
    Transaction
    → Bytes
    → List (WalletResult Bool)
    → (Transaction → WalletResult Bytes)
    → WalletResult VerifyOutcome
    → Type 0
Tracks tx tx_hash polls broadcast (ok outcome) =
    ((outcome.in_mempool ≡ true) × (any is_found polls ≡ true) × (outcome.effective_hash ≡ tx_hash))
    ⊎ ((outcome.in_mempool ≡ false)
        × (any is_found polls ≡ false)
        × ((again : Transaction) × Replaces tx again
            × ((hash : Bytes) × (broadcast again ≡ ok hash))
            × (outcome.effective_hash ≡ again.hash)))
Tracks tx tx_hash polls broadcast (err error) =
    (any is_found polls ≡ false)
    × ((again : Transaction) × Replaces tx again × (broadcast again ≡ err error))

rebroadcast-Tracks :
    (w : FastWallet) (tx again : Transaction) (tx_hash : Bytes) (polls : List (WalletResult Bool))
    (broadcast : Transaction → WalletResult Bytes) (now : ℕ)
    → any is_found polls ≡ false
    → Replaces tx again
    → ((rebroadcast w again (broadcast again) now).0.tracker ≡ w.tracker)
      × Tracks tx tx_hash polls broadcast (rebroadcast w again (broadcast again) now).1
unfolding rebroadcast record_broadcast_candidate
rebroadcast-Tracks w tx again tx_hash polls broadcast now unseen same =
    elim (WalletResult-cases (broadcast again)) [
      | inl (hash, e) ↦ rw e (refl, inr (refl, unseen, (again, same, (hash, e), refl)))
      | inr (why, e) ↦ rw e (refl, (unseen, (again, same, e)))
    ]

-- Whatever the polls and the network answer, `verify_broadcast` leaves the tracker as it is. It reports the original hash exactly when a poll finds it; else the hash
-- of a transaction with the same nonce, chain, recipient, value and payload that the network took; and an error is the network's on such a
-- transaction.
pub verify_broadcast-Tracks :
    (S : Setting) (w : FastWallet) (tx : Transaction) (tx_hash : Bytes)
    (polls : List (WalletResult Bool)) (broadcast : Transaction → WalletResult Bytes)
    (now later : ℕ)
    → ((verify_broadcast S w tx tx_hash polls broadcast now later).0.tracker ≡ w.tracker)
      × Tracks tx tx_hash polls broadcast
          (verify_broadcast S w tx tx_hash polls broadcast now later).1
unfolding verify_broadcast
verify_broadcast-Tracks S w tx tx_hash polls broadcast now later =
    let kept = check-tracker w tx tx_hash polls now in
    let seen = check-any w tx tx_hash polls now in
    elim (Bool-cases (any is_found polls)) [
      | inl found ↦ rw (seen, found) (kept, inl (refl, found, refl))
      | inr unseen ↦
          let again = send_tx S.crypto tx in
          let w' = (verify_broadcast_check_only w tx tx_hash polls now).0 in
          let (same, tracks) =
            rebroadcast-Tracks w' tx again tx_hash polls broadcast later unseen
              (send_tx-Replaces S.crypto tx) in
          rw (seen, unseen) (same ∙ kept, tracks)
    ]
