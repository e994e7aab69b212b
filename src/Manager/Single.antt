-- ===== src/Manager/Single.antt =====
-- `SingleAddressNonceManager` of src/nonce.rs: one tracker, with the address that it is for.
use fast_wallet.Base.{ℕ, Bool}
use fast_wallet.Transaction.{Bytes}
use fast_wallet.Tracker
use fast_wallet.Tracker.{NonceTracker}
use fast_wallet.Reservation
use fast_wallet.Reservation.{ReservedNonce}

pub record SingleAddressNonceManager : Type 0 where
  pub tracker : NonceTracker
  pub address : Bytes

unfoldable pub new_single : Bytes → ℕ → SingleAddressNonceManager
new_single address initial_nonce = record { tracker = Tracker.new initial_nonce; address = address }

-- A call on the tracker.
abbrev through {ℓ} :
    {R : Type ℓ}
    → (NonceTracker → NonceTracker × R)
    → SingleAddressNonceManager
    → SingleAddressNonceManager × R
through call m = let (t, r) = call m.tracker in (record m { tracker = t }, r)

unfoldable pub single_get_nonce : SingleAddressNonceManager → SingleAddressNonceManager × ℕ
unfolding Tracker.get_and_increment
single_get_nonce = through Tracker.get_and_increment

unfoldable pub single_reserve :
    SingleAddressNonceManager → SingleAddressNonceManager × ReservedNonce
unfolding Reservation.reserve
single_reserve = through Reservation.reserve

unfoldable pub single_peek : SingleAddressNonceManager → ℕ
single_peek m = Tracker.peek m.tracker

unfoldable pub single_effective_next_nonce : SingleAddressNonceManager → ℕ
single_effective_next_nonce m = Tracker.effective_next_nonce m.tracker

unfoldable pub single_confirm : SingleAddressNonceManager → SingleAddressNonceManager
single_confirm m = record m { tracker = Tracker.confirm m.tracker }

unfoldable pub single_release : SingleAddressNonceManager → ℕ → SingleAddressNonceManager
single_release m nonce = record m { tracker = Tracker.release m.tracker nonce }

unfoldable pub single_sync : SingleAddressNonceManager → ℕ → SingleAddressNonceManager
single_sync m chain_nonce = record m { tracker = (Tracker.sync_forward m.tracker chain_nonce).0 }

unfoldable pub single_recover_stalled :
    SingleAddressNonceManager → ℕ → SingleAddressNonceManager × Bool
single_recover_stalled m chain_nonce = through (λ t. Tracker.recover_stalled t chain_nonce) m

unfoldable pub single_pending_count : SingleAddressNonceManager → ℕ
single_pending_count m = m.tracker.pending_count

unfoldable pub single_gap_count : SingleAddressNonceManager → ℕ
single_gap_count m = m.tracker.gap_count
