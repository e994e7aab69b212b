-- ===== src/Manager/Tests.antt =====
-- Two addresses under one manager.
use fast_wallet.Base.{◌≡◌, refl, [], ◌∷◌}
use fast_wallet.NonceSet
use fast_wallet.Tracker
use fast_wallet.Tracker.{NonceTracker}
use fast_wallet.Manager.{NonceManager, find, init_nonce, get_nonce, pending_count, store}
use fast_wallet.Manager.Laws.{gets, after, find-after}

abbrev two_addresses : NonceManager
two_addresses = (0, Tracker.new 10) ∷ (1, Tracker.new 20) ∷ []

init_run : init_nonce (init_nonce [] 0 10) 1 20 ≡ two_addresses
unfolding init_nonce find store Tracker.new Tracker.set NonceSet.retain_from
init_run = refl

get_run : ((get_nonce two_addresses 1).1 ≡ 20) × (pending_count (get_nonce two_addresses 1).0 0 ≡ 0)
unfolding get_nonce find store pending_count Tracker.new Tracker.get_and_increment
get_run = (refl, refl)

find-after_case : find 0 (after gets two_addresses 1) ≡ find 0 two_addresses
find-after_case = find-after gets two_addresses 1 0
