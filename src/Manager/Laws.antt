-- ===== src/Manager/Laws.antt =====
-- Each operation touches the tracker of its own address alone.
use fast_wallet.Base.{
  ℕ, ◌≡◌, [], ◌∷◌, leb, ◌==◌, if◌then◌else◌, Option, none, some, arith, unwrap_or,
}
use fast_wallet.Tracker
use fast_wallet.Tracker.{NonceTracker}
use fast_wallet.Reservation
use fast_wallet.Manager.{
  NonceManager, find, store, init_nonce, get_nonce, reserve_nonce, peek_nonce, effective_next_nonce,
  confirm_nonce, release_nonce, sync_nonce, recover_stalled,
}

pub find-store :
    (a b : ℕ) (t : NonceTracker) (m : NonceManager)
    → find b (store a t m) ≡ (if a == b then some t else find b m)
unfolding find store
find-store a b t [] = ground arith
find-store a b t ((c, u) ∷ m) = ground (arith, find-store a b t m)

pub data Op : Type 0 where
  inits releases syncs recovers : ℕ → Op
  gets reserves peeks effectives confirms : Op

-- The manager after any of the calls.
unfoldable pub after : Op → NonceManager → ℕ → NonceManager
after (inits n) m a = init_nonce m a n
after (releases n) m a = release_nonce m a n
after (syncs n) m a = (sync_nonce m a n).0
after (recovers n) m a = (recover_stalled m a n).0
after gets m a = (get_nonce m a).0
after reserves m a = (reserve_nonce m a).0
after peeks m a = (peek_nonce m a).0
after effectives m a = (effective_next_nonce m a).0
after confirms m a = confirm_nonce m a

-- What the call makes of the tracker of its own address; `none` stands for no tracker.
abbrev pub effect : Op → Option NonceTracker → Option NonceTracker
effect (inits n) (some t) = some (Tracker.set t n)
effect (inits n) none = some (Tracker.set (Tracker.new n) n)
effect (releases n) (some t) = some (Tracker.release t n)
effect (releases n) none = none
effect confirms (some t) = some (Tracker.confirm t)
effect confirms none = none
effect (syncs n) o = some (Tracker.sync_forward (unwrap_or o (Tracker.new 0)) n).0
effect (recovers n) o = some (Tracker.recover_stalled (unwrap_or o (Tracker.new 0)) n).0
effect gets o = some (Tracker.get_and_increment (unwrap_or o (Tracker.new 0))).0
effect reserves o = some (Tracker.get_and_increment (unwrap_or o (Tracker.new 0))).0
effect peeks o = some (unwrap_or o (Tracker.new 0))
effect effectives o = some (unwrap_or o (Tracker.new 0))

-- A call acts on the tracker of its address and leaves every other one alone.
pub find-after :
    (op : Op) (m : NonceManager) (a b : ℕ)
    → find b (after op m a) ≡ (if a == b then effect op (find a m) else find b m)
unfolding after init_nonce release_nonce sync_nonce recover_stalled get_nonce reserve_nonce
    peek_nonce effective_next_nonce confirm_nonce Reservation.reserve
find-after (inits n) m a b = grind (arith, find-store)
find-after _ m a b = grind (arith, find-store)

-- Initialising an address twice, or after use, moves its counter forward or not at all.
pub init_nonce_max :
    (m : NonceManager) (a n : ℕ) (t : NonceTracker)
    → find a m ≡ some t
    → (t' : NonceTracker) × (find a (init_nonce m a n) ≡ some t')
      × (t'.current ≡ (if leb n t.current then t.current else n))
unfolding init_nonce Tracker.set Tracker.sync_forward
init_nonce_max m a n t h =
    (Tracker.set t n, ground (arith, find-store a a (Tracker.set t n) m), ground arith)
