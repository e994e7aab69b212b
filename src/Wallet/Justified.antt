-- ===== src/Wallet/Justified.antt =====
-- When a cancel is sent: what `replace_stalled_nonce` has checked before it, and what becomes of it.
use mathlib.Core.Path.{subst}
use fast_wallet.Base.{
  Option, ℕ, ◌+◌, ◌<◌, ◌≡◌, refl, sym, ap, ◌∙◌, true, some, inl, inr, ◌⊎◌, arith,
}
use fast_wallet.Errors.{WalletResult, ok, err}
use fast_wallet.Transaction.{Bytes}
use fast_wallet.Transaction.Sign.{Transaction, build_and_sign}
use fast_wallet.Tracker
use fast_wallet.Ledger.{InflightNonceSnapshot, prune_consumed, lowest_unresolved_at_or_above}
use fast_wallet.Wallet.{FastWallet, Setting}
use fast_wallet.Wallet.Replace.{
  stall_replace_window, cancelled, not_stalled, Meets, Replaced, recently_replaced, cancel_request,
  cancel_fees, broadcast_cancel, guarded, with_fees, with_head, with_latest, replace_stalled_nonce,
}
use fast_wallet.Wallet.Guards.{
  OldEnough, WindowOver, Settles, Unsent, passes_on, broadcast_outcome, guarded_outcome,
  fees_outcome, head_outcome, latest_outcome, window_outcome,
}

-- What a cancel in the wallet `w` rests on: none was sent within the window; the chain has mined nothing from
-- `chain_next` on; the lowest unresolved nonce of the ledger is `chain_next` and old enough; the network gave its
-- fees, and, once they are there, the counter is beyond the nonce; and what is signed is the cancel at the fees for
-- the network's and the stranded ones.
pub record Ready (S : Setting) (M : Meets) (chain_next tip_bump_bps : ℕ) (w : FastWallet)
    : Type 0 where
  pub window_over : WindowOver w.last_stall_replace chain_next M.started
  pub nothing_mined : M.chain_latest ≡ ok chain_next
  pub stranded : InflightNonceSnapshot
  pub is_lowest :
      lowest_unresolved_at_or_above
        (prune_consumed (M.during_latest w).inflight chain_next)
        chain_next
        M.observed
      ≡ some stranded
  pub stranded_head : stranded.nonce ≡ chain_next
  pub old_enough : OldEnough stranded
  pub network_tip : ℕ
  pub tip_answer : M.priority_fee ≡ ok network_tip
  pub network_gas : ℕ
  pub gas_answer : M.gas_price ≡ ok network_gas
  pub counter_beyond :
      chain_next
      < Tracker.peek
          (M.during_fees (record (M.during_latest w) {
            inflight = prune_consumed (M.during_latest w).inflight chain_next;
          })).tracker
  pub signed : Transaction
  pub is_signed :
      build_and_sign S.crypto (
        cancel_request S M chain_next tip_bump_bps
          (cancel_fees S M chain_next tip_bump_bps stranded network_tip network_gas))
      ≡ ok signed

recent_again :
    (nonce at now : ℕ)
    → now < at + stall_replace_window
    → recently_replaced (some (nonce, at)) nonce now ≡ true
recent_again nonce at now h = ground arith

settled_cancel :
    (chain_next finished n : ℕ) (h : Bytes) (tx : Transaction) (result : WalletResult Bytes)
    (x : Replaced)
    → Settles chain_next finished tx result x
    → x.1 ≡ ok (cancelled n h)
    → x.0.last_stall_replace ≡ some (chain_next, finished)
settled_cancel chain_next finished n h tx (ok hash) x s e = s.1
settled_cancel chain_next finished n h tx (err error) x s e =
    let wrong : err error ≡ ok (cancelled n h) = sym s ∙ e in cc

module _ (S : Setting) (M : Meets) (chain_next tip_bump_bps : ℕ) where
  abbrev call0 : FastWallet → Meets → Replaced
  call0 w N = replace_stalled_nonce S N chain_next tip_bump_bps w

  abbrev call1 : FastWallet → Meets → Replaced
  call1 w N = with_latest S N chain_next tip_bump_bps (M.during_latest w) M.chain_latest

  abbrev call3 : FastWallet → InflightNonceSnapshot → Meets → Replaced
  call3 w stranded N = with_fees S N chain_next tip_bump_bps w stranded M.priority_fee M.gas_price

  -- Behind the fees of the network: the counter, and the cancel that is signed.
  behind_fees :
      (w : FastWallet) (stranded : InflightNonceSnapshot)
      → ((tip : ℕ) × (M.priority_fee ≡ ok tip)
          × (gas : ℕ) × (M.gas_price ≡ ok gas)
          × (chain_next < Tracker.peek w.tracker)
          × (signed : Transaction) × (build_and_sign S.crypto (
                cancel_request S M chain_next tip_bump_bps
                  (cancel_fees S M chain_next tip_bump_bps stranded tip gas))
              ≡ ok signed)
          × Settles chain_next M.finished signed (M.broadcast signed.encoded) (call3 w stranded M))
        ⊎ Unsent S M chain_next tip_bump_bps (call3 w stranded)
  behind_fees w stranded =
      elim (fees_outcome S M chain_next tip_bump_bps w stranded M.priority_fee M.gas_price) [
        | inr unsent ↦ inr unsent
        | inl (tip, tip_answer, gas, gas_answer, on) ↦
            let fees = cancel_fees S M chain_next tip_bump_bps stranded tip gas in
            let built = build_and_sign S.crypto (cancel_request S M chain_next tip_bump_bps fees) in
            let cast : Meets → Replaced =
              λ N. broadcast_cancel S N chain_next tip_bump_bps w fees built in
            let guard : Meets → Replaced = λ N. guarded S N chain_next tip_bump_bps w fees in
            elim (guarded_outcome S M chain_next tip_bump_bps w fees) [
              | inr unsent ↦
                  inr (passes_on S M chain_next tip_bump_bps (call3 w stranded) guard on unsent)
              | inl (beyond, on') ↦
                  elim (broadcast_outcome S M chain_next tip_bump_bps w fees built) [
                    | inr unsent ↦ inr (
                        passes_on S M chain_next tip_bump_bps (call3 w stranded) guard on
                          (passes_on S M chain_next tip_bump_bps guard cast on' unsent))
                    | inl (signed, is_signed, settles) ↦ inl (
                      tip,
                      tip_answer,
                      gas,
                      gas_answer,
                      beyond,
                      signed,
                      is_signed,
                      subst (Settles chain_next M.finished signed (M.broadcast signed.encoded))
                          (sym (on M.broadcast ∙ on' M.broadcast)) settles,
                    )
                  ]
            ]
      ]

  -- Behind the ledger's search.
  behind_head :
      (w : FastWallet) (head : Option InflightNonceSnapshot)
      → ((stranded : InflightNonceSnapshot) × (head ≡ some stranded)
          × (stranded.nonce ≡ chain_next)
          × OldEnough stranded
          × (tip : ℕ) × (M.priority_fee ≡ ok tip)
          × (gas : ℕ) × (M.gas_price ≡ ok gas)
          × (chain_next < Tracker.peek (M.during_fees w).tracker)
          × (signed : Transaction) × (build_and_sign S.crypto (
                cancel_request S M chain_next tip_bump_bps
                  (cancel_fees S M chain_next tip_bump_bps stranded tip gas))
              ≡ ok signed)
          × Settles chain_next M.finished signed
              (M.broadcast signed.encoded)
              (with_head S M chain_next tip_bump_bps w head))
        ⊎ Unsent S M chain_next tip_bump_bps (λ N. with_head S N chain_next tip_bump_bps w head)
  behind_head w head = elim (head_outcome S M chain_next tip_bump_bps w head) [
    | inr unsent ↦ inr unsent
    | inl (stranded, found, at, old, on) ↦ elim (behind_fees (M.during_fees w) stranded) [
      | inr unsent ↦ inr (
          passes_on S M chain_next tip_bump_bps (λ N. with_head S N chain_next tip_bump_bps w head)
            (call3 (M.during_fees w) stranded) on unsent)
      | inl (tip, tip_answer, gas, gas_answer, beyond, signed, is_signed, settles) ↦ inl (
        stranded,
        found,
        at,
        old,
        tip,
        tip_answer,
        gas,
        gas_answer,
        beyond,
        signed,
        is_signed,
        subst (Settles chain_next M.finished signed (M.broadcast signed.encoded))
            (sym (on M.broadcast)) settles,
      )
    ]
  ]

  pub replace-Justified :
      (w : FastWallet)
      → ((ready : Ready S M chain_next tip_bump_bps w) × Settles chain_next M.finished ready.signed
            (M.broadcast ready.signed.encoded)
            (replace_stalled_nonce S M chain_next tip_bump_bps w))
        ⊎ Unsent S M chain_next tip_bump_bps
            (λ N. replace_stalled_nonce S N chain_next tip_bump_bps w)
  replace-Justified w =
      let w1 = M.during_latest w in
      let inflight = prune_consumed w1.inflight chain_next in
      let w2 : FastWallet = record w1 { inflight = inflight } in
      let head = lowest_unresolved_at_or_above inflight chain_next M.observed in
      elim (window_outcome S M chain_next tip_bump_bps w) [
        | inr unsent ↦ inr unsent
        | inl (over, on0) ↦ elim (latest_outcome S M chain_next tip_bump_bps w1 M.chain_latest) [
          | inr unsent ↦ inr (passes_on S M chain_next tip_bump_bps (call0 w) (call1 w) on0 unsent)
          | inl (mined, on1) ↦ elim (behind_head w2 head) [
            | inr unsent ↦ inr (
                passes_on S M chain_next tip_bump_bps (call0 w) (call1 w) on0 (
                  passes_on S M chain_next tip_bump_bps (call1 w)
                    (λ N. with_head S N chain_next tip_bump_bps w2 head) on1 unsent))
            | inl
                  (
                    stranded, lowest, at, old, tip, tip_answer, gas, gas_answer, beyond, signed,
                    is_signed, settles,
                  ) ↦
                inl (
                  record {
                    window_over = over;
                    nothing_mined = mined;
                    stranded = stranded;
                    is_lowest = lowest;
                    stranded_head = at;
                    old_enough = old;
                    network_tip = tip;
                    tip_answer = tip_answer;
                    network_gas = gas;
                    gas_answer = gas_answer;
                    counter_beyond = beyond;
                    signed = signed;
                    is_signed = is_signed;
                  },
                  subst (Settles chain_next M.finished signed (M.broadcast signed.encoded))
                      (sym (on0 M.broadcast ∙ on1 M.broadcast)) settles,
                )
          ]
        ]
      ]

  -- The cancel that a call reports is remembered.
  remembered :
      (w w' : FastWallet) (n : ℕ) (h : Bytes)
      → replace_stalled_nonce S M chain_next tip_bump_bps w ≡ (w', ok (cancelled n h))
      → w'.last_stall_replace ≡ some (chain_next, M.finished)
  remembered w w' n h e = elim (replace-Justified w) [
    | inl (ready, settles) ↦
        settled_cancel chain_next M.finished n h ready.signed (M.broadcast ready.signed.encoded)
          (w', ok (cancelled n h))
          (subst (Settles chain_next M.finished ready.signed (M.broadcast ready.signed.encoded)) e
            settles)
          refl
    | inr (same, no_cancel) ↦ absurd (no_cancel n h (ap (λ x. x.1) e))
  ]

  -- Within the window behind a cancel, the same call changes nothing, whatever it meets then.
  pub replace_once :
      (w w' : FastWallet) (n : ℕ) (h : Bytes) (later : Meets)
      → replace_stalled_nonce S M chain_next tip_bump_bps w ≡ (w', ok (cancelled n h))
      → later.started < M.finished + stall_replace_window
      → replace_stalled_nonce S later chain_next tip_bump_bps w' ≡ (w', ok not_stalled)
  unfolding replace_stalled_nonce
  replace_once w w' n h later e soon =
      let recent : recently_replaced w'.last_stall_replace chain_next later.started ≡ true =
        rw (remembered w w' n h e) (recent_again chain_next M.finished later.started soon) in
      rw recent refl
