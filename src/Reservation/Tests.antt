-- ===== src/Reservation/Tests.antt =====
-- Two guards over one tracker, the first broadcasting, and the theorems on fleets at them.
use fast_wallet.Base.{ℕ, ◌≡◌, ◌≢◌, refl, [], ◌∷◌, arith}
use fast_wallet.NonceSet
use fast_wallet.Tracker
use fast_wallet.Tracker.{NonceTracker}
use fast_wallet.Reservation.{ReservedNonce, held, broadcasting, reserve, drop}
use fast_wallet.Reservation.Fleet.{
  Fleet, Reach, start, later, reserves, acts, marks, apply, no_nonce_shared, reserve_fresh,
  pending_exact,
}

abbrev first_guard : ReservedNonce
first_guard = record { nonce = 10; state = broadcasting }

abbrev second_guard : ReservedNonce
second_guard = record { nonce = 11; state = held }

abbrev two_lanes : Fleet
two_lanes = record {
  tracker = record { current = 12; pending_count = 2; synced_nonce = 10; gaps = []; gap_count = 0 };
  guards = second_guard ∷ first_guard ∷ [];
}

two_lanes-Reach : Reach 10 two_lanes
unfolding reserve Tracker.new Tracker.get_and_increment apply
two_lanes-Reach =
    later
      (later (later start (reserves (omega arith) (omega arith)))
        (reserves (omega arith) (omega arith)))
      (acts marks 1 (record { nonce = 10; state = held }) refl)

-- A guard dropped while held gives its nonce back; one dropped while broadcasting does not.
drop_run :
    ((drop two_lanes.tracker second_guard).0.current ≡ 11)
    × ((drop two_lanes.tracker first_guard).0.current ≡ 12)
unfolding drop Tracker.release NonceSet.contains
drop_run = (refl, refl)

no_nonce_shared_example : second_guard.nonce ≢ first_guard.nonce
no_nonce_shared_example =
    no_nonce_shared (omega arith) two_lanes-Reach 0 1 second_guard first_guard refl refl refl refl
      (omega arith)

reserve_fresh_example : (reserve two_lanes.tracker).1.nonce ≢ 10
reserve_fresh_example =
    reserve_fresh (omega arith) two_lanes-Reach (omega arith) 1 first_guard refl refl

pending_exact_case : ◌≡◌ {A = ℕ} 2 2
pending_exact_case = pending_exact (omega arith) two_lanes-Reach
