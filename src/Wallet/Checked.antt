-- ===== src/Wallet/Checked.antt =====
-- What `self_check` of src/wallet.rs does with the two answers.
use fast_wallet.Base.{
  ℕ, ◌*◌, ◌/◌, ◌≤◌, ◌<◌, ◌≡◌, ◌≢◌, some, ◌↔◌, refl, Bool, true, false, ◌&&◌, none, ltb, leb, arith,
  u64_mod, Bool-cases, inl, inr,
}
use fast_wallet.Errors.{ok}
use fast_wallet.Tracker.Invariant.{IsValid}
use fast_wallet.Tracker.Availability.{available, sync_forward-available}
use fast_wallet.Wallet.Build.{BuiltWallet}
use fast_wallet.Wallet.Status.{balance_eth, self_check, wei_per_eth}

-- The check withdraws exactly the nonces below the chain's, and leaves the ledger as it is.
pub self_check-available :
    (info : Bool) (w : BuiltWallet) (balance nonce m : ℕ)
    → IsValid w.state.tracker
    → (available (self_check info w (ok balance) (ok nonce)).0.state.tracker m
        ≡ (available w.state.tracker m && leb nonce m))
      × ((self_check info w (ok balance) (ok nonce)).0.state.inflight ≡ w.state.inflight)
unfolding self_check
self_check-available info w balance nonce m v =
    (sync_forward-available w.state.tracker nonce m v, refl)

fits_below :
    (balance : ℕ) → ltb (balance / wei_per_eth) u64_mod ≡ true → u64_mod * wei_per_eth ≤ balance → ⊥
fits_below balance fits over =
    let low : balance / wei_per_eth < u64_mod = ground arith in omega arith

over_above :
    (balance : ℕ) → ltb (balance / wei_per_eth) u64_mod ≡ false → u64_mod * wei_per_eth ≤ balance
over_above balance over = let high : u64_mod ≤ balance / wei_per_eth = ground arith in omega arith

shown_fits :
    (info : Bool) (w : BuiltWallet) (balance nonce : ℕ)
    → ltb (balance / wei_per_eth) u64_mod ≡ true
    → (self_check info w (ok balance) (ok nonce)).1 ≢ none
unfolding self_check balance_eth
shown_fits true w balance nonce fits h =
    let wrong : some (ok _) ≡ none = rw (self_check, fits) at h in cc
shown_fits false w balance nonce fits h = let wrong : some (ok _) ≡ none = h in cc

shown_over :
    (w : BuiltWallet) (balance nonce : ℕ)
    → ltb (balance / wei_per_eth) u64_mod ≡ false
    → (self_check true w (ok balance) (ok nonce)).1 ≡ none
unfolding self_check balance_eth
shown_over w balance nonce over = rw (self_check, over) refl

silent :
    (w : BuiltWallet) (balance nonce : ℕ) → (self_check false w (ok balance) (ok nonce)).1 ≢ none
unfolding self_check
silent w balance nonce h = let wrong : some (ok _) ≡ none = h in cc

panics_when :
    (info : Bool) (w : BuiltWallet) (balance nonce : ℕ)
    → ((self_check info w (ok balance) (ok nonce)).1 ≡ none)
      ↔ ((info ≡ true) × (u64_mod * wei_per_eth ≤ balance))
panics_when false w balance nonce =
    (λ h. absurd (silent w balance nonce h), λ h. let wrong : false ≡ true = h.0 in cc)
panics_when true w balance nonce = elim (Bool-cases (ltb (balance / wei_per_eth) u64_mod)) [
  | inl fits ↦ (
    λ h. absurd (shown_fits true w balance nonce fits h),
    λ h. absurd (fits_below balance fits h.1),
  )
  | inr over ↦ (λ h. (refl, over_above balance over), λ h. shown_over w balance nonce over)
]

-- In a wallet whose tracker is valid, with both answers there: the check panics exactly when its lines are logged and the
-- balance is 2^64 ethers or more; and whether it panics or not, the nonces available afterwards are those that were available
-- and are not below the chain's.
pub self_check_panics :
    (info : Bool) (w : BuiltWallet) (balance nonce : ℕ)
    → IsValid w.state.tracker
    → (((self_check info w (ok balance) (ok nonce)).1 ≡ none)
        ↔ ((info ≡ true) × (u64_mod * wei_per_eth ≤ balance)))
      × ((m : ℕ)
          → available (self_check info w (ok balance) (ok nonce)).0.state.tracker m
            ≡ (available w.state.tracker m && leb nonce m))
self_check_panics info w balance nonce v =
    (panics_when info w balance nonce, λ m. (self_check-available info w balance nonce m v).0)
