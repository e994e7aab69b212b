-- ===== src/Tracker/Calls.antt =====
-- The calls on one tracker in any order, and what holds after every one of them.
use fast_wallet.Base.{ℕ, suc, ◌<◌, u64_mod}
use fast_wallet.Tracker.{
  NonceTracker, get_and_increment, confirm, release, set, sync_forward, recover_stalled,
  reset_pending,
}
use fast_wallet.Tracker.Invariant.{
  IsValid, get_and_increment-IsValid, release-IsValid, sync_forward-IsValid,
  recover_stalled-IsValid, decrement_pending-IsValid, pending-IsValid,
}

pub data Call : Type 0 where
  reserves confirms resets : Call
  releases sets syncs recovers : ℕ → Call

unfoldable pub after : Call → NonceTracker → NonceTracker
after reserves t = (get_and_increment t).0
after confirms t = confirm t
after resets t = reset_pending t
after (releases n) t = release t n
after (sets n) t = set t n
after (syncs n) t = (sync_forward t n).0
after (recovers n) t = (recover_stalled t n).0

-- What a call needs: a word for the nonce it is given, and a next word for one it hands out.
abbrev pub Fits : Call → NonceTracker → Type 0
Fits reserves t = suc t.current < u64_mod
Fits (sets n) t = n < u64_mod
Fits (syncs n) t = n < u64_mod
Fits _ t = Unit {0}

-- Every call that fits the words keeps the tracker valid: its gaps ordered, distinct, at or above the
-- synced nonce and below the last one handed out, their count exact, the counter not behind the chain.
pub after-IsValid : (c : Call) (t : NonceTracker) → Fits c t → IsValid t → IsValid (after c t)
unfolding after confirm reset_pending set
after-IsValid reserves t h v = get_and_increment-IsValid t h v
after-IsValid confirms t h v = decrement_pending-IsValid t v
after-IsValid resets t h v = pending-IsValid t 0 v
after-IsValid (releases n) t h v = release-IsValid t n v
after-IsValid (sets n) t h v = sync_forward-IsValid t n h v
after-IsValid (syncs n) t h v = sync_forward-IsValid t n h v
after-IsValid (recovers n) t h v = recover_stalled-IsValid t n v
