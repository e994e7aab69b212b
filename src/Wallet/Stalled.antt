-- ===== src/Wallet/Stalled.antt =====
-- When `nonce_health_check` of src/wallet.rs reports a stall.
use mathlib.Core.Path.{subst}
use fast_wallet.Base.{
  ℕ, ◌+◌, ◌-◌, ◌%◌, ◌≤◌, ◌<◌, ◌≡◌, refl, sym, ap, ◌∙◌, true, false, ◌↔◌, ◌⊎◌, inl, inr, Option,
  some, ltb, Bool-cases, Option-cases, arith, u64_mod,
}
use fast_wallet.OrderedMap.{lookup, Ordered}
use fast_wallet.Errors.{WalletResult, ok}
use fast_wallet.Tracker
use fast_wallet.Ledger.{
  InflightNonceLedger, InflightNonceRecord, InflightNonceSnapshot, unresolved, snapshot,
  is_unresolved, lowest_unresolved_at_or_above, prune_consumed,
}
use fast_wallet.Ledger.Bounds.{consumes, apply, apply-Ordered}
use fast_wallet.Ledger.Lowest.{Keyed, apply-Keyed, lowest_sound, lowest_least, lowest_missing}
use fast_wallet.Rpc.Verdicts.{ok_same}
use fast_wallet.Rpc.Receipts.{some_same}
use fast_wallet.Wallet.{FastWallet}
use fast_wallet.Wallet.Stall.{
  stall_min_unresolved_age, aged_out, nonce_stalled, NonceHealth, nonce_health_check,
}

-- The first unresolved record at or above the chain's nonce has waited for the shortest age of a stall.
abbrev pub Stranded : InflightNonceLedger → ℕ → ℕ → Type 0
Stranded l c now =
    (r : InflightNonceRecord) × (lookup r.nonce l ≡ some r)
    × (c ≤ r.nonce)
    × (unresolved r ≡ true)
    × ((j : ℕ) (q : InflightNonceRecord)
        → lookup j l ≡ some q
        → c ≤ j
        → j < r.nonce
        → unresolved q ≡ false)
    × (stall_min_unresolved_age ≤ now - r.first_seen)

snapshot_parts :
    (r : InflightNonceRecord) (now : ℕ)
    → ((snapshot r now).nonce ≡ r.nonce)
      × ((snapshot r now).age ≡ now - r.first_seen)
      × ((snapshot r now).status ≡ r.status)
unfolding snapshot
snapshot_parts r now = (refl, refl, refl)

aged_out-age :
    (s : InflightNonceSnapshot) → (aged_out (some s) ≡ true) ↔ (stall_min_unresolved_age ≤ s.age)
aged_out-age s = (λ h. ground arith, λ h. ground arith)

aged_out-Stranded :
    (l : InflightNonceLedger) (c now : ℕ) (s : InflightNonceSnapshot)
    → Ordered 0 l
    → Keyed l
    → lowest_unresolved_at_or_above l c now ≡ some s
    → aged_out (some s) ≡ true
    → Stranded l c now
aged_out-Stranded l c now s o k found old =
    let (r, here, e, above, waits) = lowest_sound l c now s o k found in
    let (number, age, status) = snapshot_parts r now in
    let same : s.nonce ≡ r.nonce = ap (λ x. x.nonce) e ∙ number in
    (
      r,
      rw same at here,
      rw same at above,
      sym (ap (λ x. is_unresolved x.status) e ∙ ap is_unresolved status) ∙ waits,
      λ j q there at below.
          lowest_least l c now j s q o k found there at (omega (arith, same, below)),
      subst (λ n. stall_min_unresolved_age ≤ n) (ap (λ x. x.age) e ∙ age) ((aged_out-age s).0 old),
    )

pruned-Ordered : (l : InflightNonceLedger) (c : ℕ) → Ordered 0 l → Ordered 0 (prune_consumed l c)
unfolding apply
pruned-Ordered l c o = apply-Ordered (consumes c) l 0 o

pruned-Keyed : (l : InflightNonceLedger) (c : ℕ) → Keyed l → Keyed (prune_consumed l c)
unfolding apply
pruned-Keyed l c k = apply-Keyed (consumes c) l 0 k

no_such : true ≡ false → ⊥
no_such h = cc

same_place : (m n : ℕ) → (m < n → ⊥) → (n < m → ⊥) → m ≡ n
same_place m n low high = elim (Bool-cases (ltb m n)) [
  | inl less ↦ absurd (low (ground arith))
  | inr no_less ↦ elim (Bool-cases (ltb n m)) [
    | inl more ↦ absurd (high (ground arith))
    | inr no_more ↦ ground arith
  ]
]

-- The record that is found is the one that is stranded.
found-Stranded :
    (l : InflightNonceLedger) (c now : ℕ) (s : InflightNonceSnapshot)
    → Ordered 0 l
    → Keyed l
    → lowest_unresolved_at_or_above l c now ≡ some s
    → Stranded l c now
    → aged_out (some s) ≡ true
found-Stranded l c now s o k found (r, here, above, waits, least, old) =
    let (r', there, e, above', waits') = lowest_sound l c now s o k found in
    let (number, age, status) = snapshot_parts r' now in
    let same : s.nonce ≡ r'.nonce = ap (λ x. x.nonce) e ∙ number in
    let open_too : unresolved r' ≡ true =
      sym (ap (λ x. is_unresolved x.status) e ∙ ap is_unresolved status) ∙ waits' in
    let level =
      same_place s.nonce r.nonce
        (λ below. no_such (sym open_too ∙ least s.nonce r' there above' below))
        (λ beyond.
          no_such (sym waits ∙ lowest_least l c now r.nonce s r o k found here above beyond)) in
    let one : r' ≡ r = some_same (sym there ∙ ap (λ n. lookup n l) level ∙ here) in
    (aged_out-age s).1 (
      subst (λ n. stall_min_unresolved_age ≤ n)
        (sym (ap (λ x. x.age) e ∙ age ∙ ap (λ (x : InflightNonceRecord). now - x.first_seen) one))
        old)

-- Whether the age of what the search finds tells of a stall.
aged_iff :
    (l : InflightNonceLedger) (c now : ℕ)
    → Ordered 0 l
    → Keyed l
    → (aged_out (lowest_unresolved_at_or_above l c now) ≡ true) ↔ Stranded l c now
aged_iff l c now o k = elim (Option-cases (lowest_unresolved_at_or_above l c now)) [
  | inl missing ↦ (
    λ h. absurd (no_such (sym h ∙ ap aged_out missing)),
    λ (r, here, above, waits, least, old).
        absurd (no_such (sym waits ∙ lowest_missing l c now r.nonce r missing here above)),
  )
  | inr (s, found) ↦ (
    λ h. aged_out-Stranded l c now s o k found (sym (ap aged_out found) ∙ h),
    λ stranded. ap aged_out found ∙ found-Stranded l c now s o k found stranded,
  )
]

stalled_iff :
    (effective c : ℕ) (lowest : Option InflightNonceSnapshot)
    → c + 2 < u64_mod
    → (nonce_stalled effective c lowest ≡ true)
      ↔ ((c < effective) × ((aged_out lowest ≡ true) ⊎ (c + 2 < effective)))
unfolding nonce_stalled
stalled_iff effective c lowest room =
    let whole : (c + 2) % u64_mod ≡ c + 2 = omega arith in
    rw whole (elim (Bool-cases (aged_out lowest)) [
      | inl old ↦ rw old (λ h. (ground arith, inl refl), λ h. ground arith)
      | inr young ↦ rw young (
        λ h. (ground arith, inr (ground arith)),
        λ (ahead, why). elim why [ inl old ↦ absurd (no_such (sym old)) | inr far ↦ ground arith ],
      )
    ])

-- Where the ledger, after whatever happens while the check waits, is ordered and holds each record under its own nonce, and with a chain nonce that has room in the word, a check
-- that gets the chain's nonce reports a stall exactly when the tracker's next nonce at its start is above the chain's and, in
-- the ledger that the check leaves, the first unresolved record at or above the chain's nonce is 30 seconds old or
-- older; or when the tracker's next nonce at its start is more than two above.
pub health_stalled_iff :
    (w w' : FastWallet) (during_pending during_latest : FastWallet → FastWallet) (c now : ℕ)
    (latest : WalletResult ℕ) (h : NonceHealth)
    → Ordered 0 (during_latest (during_pending w)).inflight
    → Keyed (during_latest (during_pending w)).inflight
    → c + 2 < u64_mod
    → nonce_health_check w during_pending (ok c) during_latest latest now ≡ (w', ok h)
    → (h.stalled ≡ true) ↔ (
        (c < Tracker.effective_next_nonce w.tracker)
        × (Stranded w'.inflight c now ⊎ (c + 2 < Tracker.effective_next_nonce w.tracker)))
unfolding nonce_health_check
health_stalled_iff w w' during_pending during_latest c now latest h o k room e =
    let l : InflightNonceLedger = prune_consumed (during_latest (during_pending w)).inflight c in
    let left : l ≡ w'.inflight = ap (λ p. p.0.inflight) e in
    let report = ap (λ x. x.stalled) (ok_same (ap (λ p. p.1) e)) in
    let aged = aged_iff l c now (pruned-Ordered _ c o) (pruned-Keyed _ c k) in
    let (to, from) =
      stalled_iff (Tracker.effective_next_nonce w.tracker) c (lowest_unresolved_at_or_above l c now)
        room in
    (
      λ stalled.
          let (ahead, why) = to (report ∙ stalled) in
          (
            ahead,
            elim why [
              | inl old ↦ inl (subst (λ m. Stranded m c now) left (aged.0 old))
              | inr far ↦ inr far
            ],
          ),
      λ (ahead, why).
          sym report
          ∙ from (
            ahead,
            elim why [
              | inl stranded ↦ inl (aged.1 (subst (λ m. Stranded m c now) (sym left) stranded))
              | inr far ↦ inr far
            ],
          ),
    )
