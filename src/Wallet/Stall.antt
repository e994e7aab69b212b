-- ===== src/Wallet/Stall.antt =====
-- `nonce_stalled` and `nonce_health_check` of src/wallet.rs. Durations are nanoseconds; the chain's nonces at
-- the pending and at the latest tag, and the clock, are arguments.
use fast_wallet.Base.{
  ℕ, ◌+◌, ◌%◌, Bool, false, ◌||◌, Option, none, some, ltb, leb, if◌then◌else◌, u64_mod,
}
use fast_wallet.Errors.{WalletResult, ok, err}
use fast_wallet.Tracker
use fast_wallet.Ledger.{
  InflightNonceSnapshot, prune_consumed, lowest_unresolved_at_or_above, unresolved_count,
}
use fast_wallet.Wallet.{FastWallet}

abbrev pub stall_min_unresolved_age : ℕ
stall_min_unresolved_age = 30_000_000_000

abbrev pub aged_out : Option InflightNonceSnapshot → Bool
aged_out none = false
aged_out (some entry) = leb stall_min_unresolved_age entry.age

unfoldable pub nonce_stalled : ℕ → ℕ → Option InflightNonceSnapshot → Bool
nonce_stalled effective_next chain_next lowest_unresolved =
    if leb effective_next chain_next
    then false
    else aged_out lowest_unresolved || ltb ((chain_next + 2) % u64_mod) effective_next

pub record NonceHealth : Type 0 where
  pub current : ℕ
  pub effective_next : ℕ
  pub chain_next : ℕ
  pub chain_latest : Option ℕ
  pub gap_count : ℕ
  pub inflight_count : ℕ
  pub lowest_unresolved : Option InflightNonceSnapshot
  pub stalled : Bool

-- `Result::ok`.
abbrev ok_value : WalletResult ℕ → Option ℕ
ok_value (ok n) = some n
ok_value (err e) = none

-- What else happens to the wallet while the check waits for the pending and for the latest nonce are arguments, too: the
-- local nonces are read before the first wait.
unfoldable pub nonce_health_check :
    FastWallet
    → (FastWallet → FastWallet)
    → WalletResult ℕ
    → (FastWallet → FastWallet)
    → WalletResult ℕ
    → ℕ
    → FastWallet × WalletResult NonceHealth
nonce_health_check w during_pending (err error) during_latest chain_latest now =
    (during_pending w, err error)
nonce_health_check w during_pending (ok chain_next) during_latest chain_latest now =
    let current = Tracker.peek w.tracker in
    let effective_next = Tracker.effective_next_nonce w.tracker in
    let w' = during_latest (during_pending w) in
    let inflight = prune_consumed w'.inflight chain_next in
    let lowest = lowest_unresolved_at_or_above inflight chain_next now in
    (
      record w' { inflight = inflight },
      ok (record {
        current = current;
        effective_next = effective_next;
        chain_next = chain_next;
        chain_latest = ok_value chain_latest;
        gap_count = w'.tracker.gap_count;
        inflight_count = unresolved_count inflight;
        lowest_unresolved = lowest;
        stalled = nonce_stalled effective_next chain_next lowest;
      }),
    )
