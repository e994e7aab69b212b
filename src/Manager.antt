-- ===== src/Manager.antt =====
-- src/nonce.rs, `NonceManager` and `SingleAddressNonceManager`: trackers by address. The concurrent map
-- is an association list; a tracker behind an `Arc` is the entry itself, so a call updates it there.
pub mod Laws
pub mod Single
mod Tests
use fast_wallet.Base.{
  ℕ, Bool, true, false, List, [], ◌∷◌, ◌==◌, if◌then◌else◌, Option, none, some, map, unwrap_or,
}
use fast_wallet.Tracker
use fast_wallet.Tracker.{NonceTracker}
use fast_wallet.Reservation
use fast_wallet.Reservation.{ReservedNonce}

abbrev pub NonceManager : Type 0
NonceManager = List (ℕ × NonceTracker)

-- `trackers.get(&address)`.
unfoldable pub find : ℕ → NonceManager → Option NonceTracker
find a [] = none
find a ((b, t) ∷ m) = if a == b then some t else find a m

-- What a call through an entry's `Arc` leaves in the map.
unfoldable pub store : ℕ → NonceTracker → NonceManager → NonceManager
store a t [] = (a, t) ∷ []
store a t ((b, u) ∷ m) = if a == b then (b, t) ∷ m else (b, u) ∷ store a t m

unfoldable pub get_tracker : NonceManager → ℕ → NonceManager × NonceTracker
get_tracker m a = elim (find a m) [
  | some t ↦ (m, t)
  | none ↦ (store a (Tracker.new 0) m, Tracker.new 0)
]

unfoldable pub init_nonce : NonceManager → ℕ → ℕ → NonceManager
init_nonce m a nonce = elim (find a m) [
  | some t ↦ store a (Tracker.set t nonce) m
  | none ↦ store a (Tracker.set (Tracker.new nonce) nonce) m
]

-- A call on the tracker that `get_tracker` returns.
abbrev pub through {ℓ} :
    {R : Type ℓ} → (NonceTracker → NonceTracker × R) → NonceManager → ℕ → NonceManager × R
through call m a = let (m', t) = get_tracker m a in let (t', r) = call t in (store a t' m', r)

unfoldable pub get_nonce : NonceManager → ℕ → NonceManager × ℕ
unfolding get_tracker
get_nonce m a = through Tracker.get_and_increment m a

unfoldable pub reserve_nonce : NonceManager → ℕ → NonceManager × ReservedNonce
unfolding get_tracker
reserve_nonce m a = through Reservation.reserve m a

-- A peek creates the tracker too, at nonce 0.
unfoldable pub peek_nonce : NonceManager → ℕ → NonceManager × ℕ
unfolding get_tracker
peek_nonce m a = let (m', t) = get_tracker m a in (m', Tracker.peek t)

unfoldable pub effective_next_nonce : NonceManager → ℕ → NonceManager × ℕ
unfolding get_tracker
effective_next_nonce m a = let (m', t) = get_tracker m a in (m', Tracker.effective_next_nonce t)

unfoldable pub confirm_nonce : NonceManager → ℕ → NonceManager
confirm_nonce m a = elim (find a m) [ some t ↦ store a (Tracker.confirm t) m | none ↦ m ]

unfoldable pub release_nonce : NonceManager → ℕ → ℕ → NonceManager
release_nonce m a nonce = elim (find a m) [
  | some t ↦ store a (Tracker.release t nonce) m
  | none ↦ m
]

-- The flag says whether the waiters are notified.
unfoldable pub sync_nonce : NonceManager → ℕ → ℕ → NonceManager × Bool
unfolding get_tracker
sync_nonce m a chain_nonce = through (λ t. Tracker.sync_forward t chain_nonce) m a

unfoldable pub recover_stalled : NonceManager → ℕ → ℕ → NonceManager × Bool
unfolding get_tracker
recover_stalled m a chain_nonce = through (λ t. Tracker.recover_stalled t chain_nonce) m a

unfoldable pub tracked_addresses : NonceManager → List ℕ
tracked_addresses m = map (λ e. e.0) m

unfoldable pub pending_count : NonceManager → ℕ → ℕ
pending_count m a = elim (find a m) [ some t ↦ t.pending_count | none ↦ 0 ]
