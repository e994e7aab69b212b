-- ===== src/Tracker/Pending.antt =====
-- What each operation does to the pending count.
use fast_wallet.Base.{
  ℕ, zero, suc, ◌-◌, ◌≡◌, refl, List, [], ◌∷◌, arith, wrapping_add, wrapping_sub, ◌∙◌,
}
use fast_wallet.NonceSet.{remove}
use fast_wallet.Tracker.{
  NonceTracker, pop_gap, reserve_next_nonce, get_and_increment, decrement_pending, collapse_from,
  collapse_top_gaps, insert_gap, recycle_nonce, release, sync_forward, recover_stalled,
}

pub pending-decrement_pending :
    (t : NonceTracker) → (decrement_pending t).pending_count ≡ t.pending_count - 1
unfolding decrement_pending
pending-decrement_pending t = ground arith

pending-pop_gap :
    (gs : List ℕ) (t : NonceTracker) → (pop_gap gs t).0.pending_count ≡ t.pending_count
unfolding pop_gap
pending-pop_gap [] t = refl
pending-pop_gap (x ∷ xs) t = refl

pending-reserve_next_nonce :
    (t : NonceTracker) → (reserve_next_nonce t).0.pending_count ≡ t.pending_count
unfolding reserve_next_nonce
pending-reserve_next_nonce t = ground (arith, pending-pop_gap t.gaps t)

-- A reservation counts one more pending transaction.
pub pending-get_and_increment :
    (t : NonceTracker) → (get_and_increment t).0.pending_count ≡ wrapping_add t.pending_count 1
unfolding get_and_increment
pending-get_and_increment t =
    pending-reserve_next_nonce (record t { pending_count = wrapping_add t.pending_count 1 })

pending-collapse_from :
    (c : ℕ) (t : NonceTracker) → (collapse_from c t).pending_count ≡ t.pending_count
unfolding collapse_from
pending-collapse_from zero t = refl
pending-collapse_from (suc p) t = ground (
  arith,
  pending-collapse_from p
      (record t { gaps = remove p t.gaps; gap_count = wrapping_sub t.gap_count 1 }),
)

pub pending-recycle_nonce :
    (t : NonceTracker) (n : ℕ) → (recycle_nonce t n).pending_count ≡ t.pending_count
unfolding recycle_nonce insert_gap collapse_top_gaps
pending-recycle_nonce t n = ground (arith, pending-collapse_from n (record t { current = n }))

-- A release counts one pending transaction less, down to none.
pub pending-release : (t : NonceTracker) (n : ℕ) → (release t n).pending_count ≡ t.pending_count - 1
unfolding release
pending-release t n = pending-recycle_nonce (decrement_pending t) n ∙ pending-decrement_pending t

pub pending-sync_forward :
    (t : NonceTracker) (n : ℕ) → (sync_forward t n).0.pending_count ≡ t.pending_count
unfolding sync_forward
pending-sync_forward t n = ground arith

pub pending-recover_stalled :
    (t : NonceTracker) (n : ℕ) → (recover_stalled t n).0.pending_count ≡ t.pending_count
unfolding recover_stalled
pending-recover_stalled t n = ground arith
