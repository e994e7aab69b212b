-- ===== src/Wallet/Freed.antt =====
-- Which nonces signing and sending give back.
use fast_wallet.Base.{
  List, [], ◌∷◌, ℕ, suc, ◌≤◌, ◌<◌, ◌≡◌, refl, sym, ap, ◌∙◌, Bool, true, false, ◌⊎◌, inl, inr,
  Option, none, some, ltb, ◌==◌, ==_iff, Bool-cases, arith, u64_mod,
}
use fast_wallet.NonceSet.{contains-Between}
use fast_wallet.Errors.{Message, BroadcastFailure, WalletError, WalletResult, ok, err}
use fast_wallet.Errors.Classify.{is_definitive_precheck_rejection, SyncBlock, nonce_sync_block}
use fast_wallet.Transaction.{Bytes, nonce}
use fast_wallet.Transaction.Request.{TransactionRequest}
use fast_wallet.Transaction.Sign.{Transaction}
use fast_wallet.Tracker
use fast_wallet.Tracker.{NonceTracker}
use fast_wallet.Tracker.Invariant.{IsValid, get_and_increment-IsValid}
use fast_wallet.Tracker.Availability.{
  available, get_and_increment-Takes, release-available, sync_forward-available,
}
use fast_wallet.Wallet.{FastWallet, Setting}
use fast_wallet.Wallet.Send.{
  record_broadcast_candidate, record_signed_or_release, sign, sync_nonce, synced_to,
  recover_nonce_error, settle, send_signed,
}

-- A broadcast's result that gives the transaction's nonce back.
abbrev pub is_released_by : (BroadcastFailure → Message) → WalletResult Bytes → Bool
is_released_by json (ok hash) = false
is_released_by json (err error) = is_definitive_precheck_rejection json error

-- A release makes only its own nonce available.
pub released_nonce :
    (t : NonceTracker) (n m : ℕ)
    → IsValid t
    → available (Tracker.release t n) m ≡ true
    → (m ≡ n) ⊎ (available t m ≡ true)
released_nonce t n m v h =
    let rule = release-available t n m v in
    elim (Bool-cases (m == n)) [
      | inl own ↦ inl ((==_iff m n).0 own)
      | inr other ↦ inr (ground arith)
    ]

module _ (json : BroadcastFailure → Message) (chain_nonce : SyncBlock → WalletResult ℕ) where
  sync_frees_nothing :
      (w : FastWallet) (reply : WalletResult ℕ) (m : ℕ)
      → IsValid w.tracker
      → available (sync_nonce w reply).0.tracker m ≡ true
      → available w.tracker m ≡ true
  unfolding sync_nonce
  sync_frees_nothing w (err error) m v h = h
  sync_frees_nothing w (ok n) m v h = let e = sync_forward-available w.tracker n m v in ground arith

  synced_to_frees_nothing :
      (w : FastWallet) (block : Option SyncBlock) (m : ℕ)
      → IsValid w.tracker
      → available (synced_to json chain_nonce w block).tracker m ≡ true
      → available w.tracker m ≡ true
  unfolding synced_to
  synced_to_frees_nothing w none m v h = h
  synced_to_frees_nothing w (some block) m v h = sync_frees_nothing w (chain_nonce block) m v h

  pub recovery_frees_nothing :
      (w : FastWallet) (error : WalletError) (m : ℕ)
      → IsValid w.tracker
      → available (recover_nonce_error json chain_nonce w error).tracker m ≡ true
      → available w.tracker m ≡ true
  unfolding recover_nonce_error
  recovery_frees_nothing w error m v h =
      synced_to_frees_nothing w (nonce_sync_block json error) m v h

  -- With a valid tracker, whatever the broadcast's result, and whatever the chain then answers, a nonce that is available after
  -- `send_signed` was so before, but for the transaction's own when the rejection is definitive.
  pub send_signed_frees :
      (w : FastWallet) (tx : Transaction) (result : WalletResult Bytes) (now settled m : ℕ)
      → IsValid w.tracker
      → available (send_signed json chain_nonce w tx result now settled).0.tracker m ≡ true
      → (available w.tracker m ≡ true)
        ⊎ ((m ≡ nonce tx.typed_tx) × (is_released_by json result ≡ true))
  unfolding send_signed settle record_broadcast_candidate
  send_signed_frees w tx (ok hash) now settled m v h = inl h
  send_signed_frees w tx (err error) now settled m v h =
      elim (Bool-cases (is_definitive_precheck_rejection json error)) [
        | inl definitive ↦
            elim (released_nonce w.tracker (nonce tx.typed_tx) m v (rw definitive at h)) [
              | inl own ↦ inr (own, definitive)
              | inr before ↦ inl before
            ]
        | inr retained ↦ inl (
            recovery_frees_nothing (record_broadcast_candidate w tx now) error m v
              (rw retained at h))
      ]

  -- A definitive rejection makes the transaction's nonce available, if the chain has not consumed it.
  pub send_signed_returns :
      (w : FastWallet) (tx : Transaction) (error : WalletError) (now settled : ℕ)
      → IsValid w.tracker
      → is_definitive_precheck_rejection json error ≡ true
      → w.tracker.synced_nonce ≤ nonce tx.typed_tx
      → available
          (send_signed json chain_nonce w tx (err error) now settled).0.tracker
          (nonce tx.typed_tx)
        ≡ true
  unfolding send_signed settle record_broadcast_candidate
  send_signed_returns w tx error now settled v definitive above =
      rw definitive
        (release-available w.tracker (nonce tx.typed_tx) (nonce tx.typed_tx) v ∙ ground arith)

taken-tracker :
    (w w' : FastWallet) (n now : ℕ) (built : WalletResult Transaction) (error : WalletError)
    → record_signed_or_release w n built now ≡ (w', err error)
    → w'.tracker ≡ Tracker.release w.tracker n
unfolding record_signed_or_release
taken-tracker w w' n now (ok tx) error e = let wrong : ok tx ≡ err error = ap (λ p. p.1) e in cc
taken-tracker w w' n now (err why) error e = sym (ap (λ p. p.0.tracker) e)

synced-pop_gap :
    (gs : List ℕ) (t : NonceTracker) → (Tracker.pop_gap gs t).0.synced_nonce ≡ t.synced_nonce
unfolding Tracker.pop_gap Tracker.take_current
synced-pop_gap [] t = refl
synced-pop_gap (x ∷ xs) t = refl

synced-get_and_increment :
    (t : NonceTracker) → (Tracker.get_and_increment t).0.synced_nonce ≡ t.synced_nonce
unfolding Tracker.get_and_increment Tracker.reserve_next_nonce Tracker.take_current
synced-get_and_increment t = elim (Bool-cases (ltb 0 t.gap_count)) [
  | inl some_gap ↦ rw some_gap (synced-pop_gap t.gaps _)
  | inr no_gap ↦ rw no_gap refl
]

available-synced :
    (t : NonceTracker) (n : ℕ) → IsValid t → available t n ≡ true → t.synced_nonce ≤ n
unfolding available
available-synced t n v h =
    ground (arith, contains-Between n t.synced_nonce t.current t.gaps v.ordered)

-- When signing fails in a wallet whose tracker is valid and whose counter has room in the word, the nonces
-- that can be handed out are those of before the call.
pub sign_failed_restores :
    (S : Setting) (w w' : FastWallet) (request : TransactionRequest) (error : WalletError)
    (now m : ℕ)
    → suc w.tracker.current < u64_mod
    → IsValid w.tracker
    → sign S w request now ≡ (w', err error)
    → available w'.tracker m ≡ available w.tracker m
unfolding sign
sign_failed_restores S w w' request error now m room v e =
    let t = w.tracker in
    let t1 = (Tracker.get_and_increment t).0 in
    let n = (Tracker.get_and_increment t).1 in
    let (was, least, announced, others) = get_and_increment-Takes t room v in
    let back = release-available t1 n m (get_and_increment-IsValid t room v) in
    let low : t1.synced_nonce ≤ n = rw (synced-get_and_increment t) (available-synced t n v was) in
    let tracker = taken-tracker (record w { tracker = t1 }) w' n now _ error e in
    let rule = others m in
    rw tracker (elim (Bool-cases (m == n)) [
      | inl own ↦ let here : available t m ≡ true = rw ((==_iff m n).0 own) was in ground arith
      | inr other ↦ ground arith
    ])
