-- ===== src/Reservation.antt =====
-- src/nonce.rs, `ReservedNonce`: the guard of one reserved nonce. The tracker that it shares is passed
-- along; an operation returns the tracker, the guard and the source's result.
pub mod Fleet
mod Tests
use fast_wallet.Base.{ℕ, Bool, true, false}
use fast_wallet.Tracker
use fast_wallet.Tracker.{NonceTracker}

pub data ReservedNonceState : Type 0 where
  held broadcasting committed released : ReservedNonceState

pub record ReservedNonce : Type 0 where
  pub nonce : ℕ
  pub state : ReservedNonceState

abbrev pub Outcome : Type 0
Outcome = NonceTracker × ReservedNonce × Bool

-- `NonceTracker::reserve` with `ReservedNonce::new`.
unfoldable pub guard : NonceTracker × ℕ → NonceTracker × ReservedNonce
guard (t, nonce) = (t, record { nonce = nonce; state = held })

unfoldable pub reserve : NonceTracker → NonceTracker × ReservedNonce
unfolding guard
reserve t = guard (Tracker.get_and_increment t)

unfoldable pub mark_broadcasting : NonceTracker → ReservedNonce → Outcome
mark_broadcasting t r = elim r.state [
  | held ↦ (t, record r { state = broadcasting }, true)
  | _ ↦ (t, r, false)
]

unfoldable pub commit : NonceTracker → ReservedNonce → Outcome
commit t r = elim r.state [
  | held ↦ (Tracker.confirm t, record r { state = committed }, true)
  | broadcasting ↦ (Tracker.confirm t, record r { state = committed }, true)
  | _ ↦ (t, r, false)
]

unfoldable pub release : NonceTracker → ReservedNonce → Outcome
release t r = elim r.state [
  | held ↦ (Tracker.release t r.nonce, record r { state = released }, true)
  | _ ↦ (t, r, false)
]

unfoldable pub release_rejected_broadcast : NonceTracker → ReservedNonce → Outcome
release_rejected_broadcast t r = elim r.state [
  | broadcasting ↦ (Tracker.release t r.nonce, record r { state = released }, true)
  | _ ↦ (t, r, false)
]

-- `Drop::drop`, less its log lines; it has no result, so the flag says whether the tracker was told.
unfoldable pub drop : NonceTracker → ReservedNonce → Outcome
drop t r = elim r.state [
  | held ↦ (Tracker.release t r.nonce, record r { state = released }, true)
  | broadcasting ↦ (t, r, false)
  | committed ↦ (t, r, false)
  | released ↦ (t, r, false)
]
