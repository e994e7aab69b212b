-- ===== src/Wallet/Guards.antt =====
-- The checks of `replace_stalled_nonce`, one after the other: each is met, or nothing is sent.
use fast_wallet.Base.{
  ℕ, ◌-◌, ◌≤◌, ◌<◌, ◌≡◌, ◌≢◌, refl, sym, ap, ◌∙◌, false, Option, none, some, ltb, leb, ◌==◌,
  Bool-cases, ==_iff, inl, inr, ◌⊎◌, arith,
}
use fast_wallet.Errors.{WalletResult, ok, err}
use fast_wallet.Transaction.{Bytes}
use fast_wallet.Transaction.Sign.{Transaction, build_and_sign}
use fast_wallet.Tracker
use fast_wallet.Ledger.{InflightNonceSnapshot, prune_consumed, lowest_unresolved_at_or_above}
use fast_wallet.Rpc.Receipts.{none-some}
use fast_wallet.Wallet.{FastWallet, Setting}
use fast_wallet.Wallet.Replace.{
  stall_replace_window, stall_replace_min_head_age, ReplaceOutcome, cancelled, not_stalled,
  no_candidate, race_aborted, Meets, Replaced, recently_replaced, cancel_request, cancel_fees,
  accepted_cancel, broadcast_cancel, guarded, with_fees, with_head, with_latest,
  replace_stalled_nonce,
}

-- The test of the head's age fails.
abbrev pub OldEnough : InflightNonceSnapshot → Type 0
OldEnough stranded = stall_replace_min_head_age ≤ stranded.age

-- No cancel of the nonce is remembered from within the window.
abbrev pub WindowOver : Option (ℕ × ℕ) → ℕ → ℕ → Type 0
WindowOver last chain_next now =
    (at : ℕ) → last ≡ some (chain_next, at) → stall_replace_window ≤ now - at

-- The call ends as its broadcast does: with the error, or with the cancel, which is remembered for the window.
abbrev pub Settles : ℕ → ℕ → Transaction → WalletResult Bytes → Replaced → Type 0
Settles chain_next finished tx (ok hash) (w, result) =
    (result ≡ ok (cancelled chain_next tx.hash))
    × (w.last_stall_replace ≡ some (chain_next, finished))
Settles chain_next finished tx (err e) (w, result) = result ≡ err e

abbrev cancel_of : WalletResult ReplaceOutcome → Option (ℕ × Bytes)
cancel_of (ok (cancelled n h)) = some (n, h)
cancel_of (ok not_stalled) = none
cancel_of (ok no_candidate) = none
cancel_of (ok race_aborted) = none
cancel_of (err error) = none

over_window :
    (last : Option (ℕ × ℕ)) (chain_next now : ℕ)
    → recently_replaced last chain_next now ≡ false
    → WindowOver last chain_next now
over_window none chain_next now h at e = absurd (none-some e)
over_window (some (nonce, was)) chain_next now h at e =
    let same : recently_replaced (some (chain_next, at)) chain_next now ≡ false =
      ap (λ l. recently_replaced l chain_next now) (sym e) ∙ h in
    ground arith

module _ (S : Setting) (M : Meets) (chain_next tip_bump_bps : ℕ) where
  -- The same call, if the network answered a broadcast otherwise.
  abbrev pub if_answered : (Bytes → WalletResult Bytes) → Meets
  if_answered other = record M { broadcast = other }

  -- Nothing is sent: how a broadcast would be answered makes no difference, and there is no cancel.
  abbrev pub Unsent : (Meets → Replaced) → Type 0
  Unsent call =
      ((other : Bytes → WalletResult Bytes) → call (if_answered other) ≡ call M)
      × ((n : ℕ) (h : Bytes) → (call M).1 ≢ ok (cancelled n h))

  abbrev pub Goes : (Meets → Replaced) → (Meets → Replaced) → Type 0
  Goes call next =
      (other : Bytes → WalletResult Bytes) → call (if_answered other) ≡ next (if_answered other)

  ended_early :
      (call : Meets → Replaced) (x : Replaced)
      → Goes call (λ N. x)
      → cancel_of x.1 ≡ none
      → Unsent call
  ended_early call x goes none_sent = (
    λ other. goes other ∙ sym (goes M.broadcast),
    λ n h e.
        none-some
          (sym none_sent ∙ ap (λ y. cancel_of y.1) (sym (goes M.broadcast)) ∙ ap cancel_of e),
  )

  pub passes_on : (call next : Meets → Replaced) → Goes call next → Unsent next → Unsent call
  passes_on call next goes (same, no_cancel) = (
    λ other. goes other ∙ same other ∙ sym (goes M.broadcast),
    λ n h e. no_cancel n h (ap (λ y. y.1) (sym (goes M.broadcast)) ∙ e),
  )

  accepted_cancel-Settles :
      (w : FastWallet) (fees : ℕ × ℕ) (tx : Transaction) (result : WalletResult Bytes)
      → Settles chain_next M.finished tx result
          (accepted_cancel S M chain_next tip_bump_bps w fees tx.hash result)
  unfolding accepted_cancel
  accepted_cancel-Settles w (tip, max_fee) tx (ok hash) = (refl, refl)
  accepted_cancel-Settles w (tip, max_fee) tx (err e) = refl

  -- The broadcast of what is built.
  pub broadcast_outcome :
      (w : FastWallet) (fees : ℕ × ℕ) (built : WalletResult Transaction)
      → ((signed : Transaction) × (built ≡ ok signed)
          × Settles chain_next M.finished signed
              (M.broadcast signed.encoded)
              (broadcast_cancel S M chain_next tip_bump_bps w fees built))
        ⊎ Unsent (λ N. broadcast_cancel S N chain_next tip_bump_bps w fees built)
  unfolding broadcast_cancel
  broadcast_outcome w fees (err e) = inr (ended_early _ (w, err e) (λ other. refl) refl)
  broadcast_outcome w fees (ok tx) =
      inl
        (tx, refl, accepted_cancel-Settles (M.during_broadcast w) fees tx (M.broadcast tx.encoded))

  -- The guard behind the fees.
  pub guarded_outcome :
      (w : FastWallet) (fees : ℕ × ℕ)
      → ((chain_next < Tracker.peek w.tracker)
          × Goes
              (λ N. guarded S N chain_next tip_bump_bps w fees)
              (λ N.
                broadcast_cancel S N chain_next tip_bump_bps w fees
                  (build_and_sign S.crypto (cancel_request S M chain_next tip_bump_bps fees))))
        ⊎ Unsent (λ N. guarded S N chain_next tip_bump_bps w fees)
  unfolding guarded cancel_request
  guarded_outcome w fees = elim (Bool-cases (leb (Tracker.peek w.tracker) chain_next)) [
    | inl behind ↦ inr (
        ended_early (λ N. guarded S N chain_next tip_bump_bps w fees) (w, ok race_aborted)
          (λ other. rw behind refl) refl)
    | inr beyond ↦ inl (ground arith, λ other. rw beyond refl)
  ]

  pub fees_outcome :
      (w : FastWallet) (stranded : InflightNonceSnapshot) (tip gas : WalletResult ℕ)
      → ((network_tip : ℕ) × (tip ≡ ok network_tip)
          × (network_gas : ℕ) × (gas ≡ ok network_gas)
          × Goes
              (λ N. with_fees S N chain_next tip_bump_bps w stranded tip gas)
              (λ N.
                guarded S N chain_next tip_bump_bps w
                  (cancel_fees S M chain_next tip_bump_bps stranded network_tip network_gas)))
        ⊎ Unsent (λ N. with_fees S N chain_next tip_bump_bps w stranded tip gas)
  unfolding with_fees cancel_fees
  fees_outcome w stranded (err e) gas = inr (ended_early _ (w, err e) (λ other. refl) refl)
  fees_outcome w stranded (ok tip) (err e) = inr (ended_early _ (w, err e) (λ other. refl) refl)
  fees_outcome w stranded (ok tip) (ok gas) = inl (tip, refl, gas, refl, λ other. refl)

  pub head_outcome :
      (w : FastWallet) (head : Option InflightNonceSnapshot)
      → ((stranded : InflightNonceSnapshot) × (head ≡ some stranded)
          × (stranded.nonce ≡ chain_next)
          × OldEnough stranded
          × Goes
              (λ N. with_head S N chain_next tip_bump_bps w head)
              (λ N.
                with_fees S N chain_next tip_bump_bps
                  (M.during_fees w)
                  stranded
                  M.priority_fee
                  M.gas_price))
        ⊎ Unsent (λ N. with_head S N chain_next tip_bump_bps w head)
  unfolding with_head
  head_outcome w none = inr (ended_early _ (w, ok no_candidate) (λ other. refl) refl)
  head_outcome w (some stranded) = elim (Bool-cases (stranded.nonce == chain_next)) [
    | inr other_nonce ↦ inr (
        ended_early (λ N. with_head S N chain_next tip_bump_bps w (some stranded))
          (w, ok no_candidate) (λ other. rw other_nonce refl) refl)
    | inl same ↦ elim (Bool-cases (ltb stranded.age stall_replace_min_head_age)) [
      | inl young ↦ inr (
          ended_early (λ N. with_head S N chain_next tip_bump_bps w (some stranded))
            (w, ok not_stalled) (λ other. rw (same, young) refl) refl)
      | inr old ↦ inl (
        stranded,
        refl,
        (==_iff stranded.nonce chain_next).0 same,
        ground arith,
        λ other. rw (same, old) refl,
      )
    ]
  ]

  pub latest_outcome :
      (w : FastWallet) (latest : WalletResult ℕ)
      → ((latest ≡ ok chain_next)
          × Goes
              (λ N. with_latest S N chain_next tip_bump_bps w latest)
              (λ N.
                with_head S N chain_next tip_bump_bps
                  (record w { inflight = prune_consumed w.inflight chain_next })
                  (lowest_unresolved_at_or_above
                    (prune_consumed w.inflight chain_next)
                    chain_next
                    M.observed)))
        ⊎ Unsent (λ N. with_latest S N chain_next tip_bump_bps w latest)
  unfolding with_latest
  latest_outcome w (err e) = inr (ended_early _ (w, err e) (λ other. refl) refl)
  latest_outcome w (ok latest) = elim (Bool-cases (latest == chain_next)) [
    | inl same ↦ inl (ap ok ((==_iff latest chain_next).0 same), λ other. rw same refl)
    | inr moved ↦ inr (
        ended_early (λ N. with_latest S N chain_next tip_bump_bps w (ok latest)) (w, ok not_stalled)
          (λ other. rw moved refl) refl)
  ]

  pub window_outcome :
      (w : FastWallet)
      → (WindowOver w.last_stall_replace chain_next M.started
          × Goes
              (λ N. replace_stalled_nonce S N chain_next tip_bump_bps w)
              (λ N. with_latest S N chain_next tip_bump_bps (M.during_latest w) M.chain_latest))
        ⊎ Unsent (λ N. replace_stalled_nonce S N chain_next tip_bump_bps w)
  unfolding replace_stalled_nonce
  window_outcome w =
      elim (Bool-cases (recently_replaced w.last_stall_replace chain_next M.started)) [
        | inl recent ↦ inr (
            ended_early (λ N. replace_stalled_nonce S N chain_next tip_bump_bps w)
              (w, ok not_stalled) (λ other. rw recent refl) refl)
        | inr due ↦
            inl (over_window w.last_stall_replace chain_next M.started due, λ other. rw due refl)
      ]
