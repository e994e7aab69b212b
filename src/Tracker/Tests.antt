-- ===== src/Tracker/Tests.antt =====
-- Runs of the tracker, and its theorems at them.
use fast_wallet.Base.{◌≡◌, refl, true, false, ◌&&◌, ◌||◌, List, [], ◌∷◌, arith, if◌then◌else◌}
use fast_wallet.NonceSet.{contains, insert, remove, retain_from}
use fast_wallet.Tracker.{
  NonceTracker, new, get_and_increment, release, sync_forward, recover_stalled,
  effective_next_nonce,
}
use fast_wallet.Tracker.Invariant.{IsValid}
use fast_wallet.Tracker.Availability.{
  available, Takes, get_and_increment-Takes, release-available, sync_forward-available,
  recover_stalled-available,
}
use fast_wallet.Tracker.Calls.{Call, after, reserves, releases, syncs, after-IsValid}

run : List Call → NonceTracker → NonceTracker
unfolding after new get_and_increment release sync_forward recover_stalled contains insert remove
    retain_from
run [] t = t
run (c ∷ cs) t = run cs (after c t)

-- Nonces 26, 27 and 28 handed out, 26 and 27 released again.
abbrev two_gaps : NonceTracker
two_gaps = record {
  current = 29;
  pending_count = 1;
  synced_nonce = 26;
  gaps = 26 ∷ 27 ∷ [];
  gap_count = 2;
}

two_gaps-run :
    run (reserves ∷ reserves ∷ reserves ∷ releases 26 ∷ releases 27 ∷ []) (new 26) ≡ two_gaps
unfolding run
two_gaps-run = refl

-- Releasing the top nonce steps the counter down over the gaps below it.
collapse_run : (run (releases 28 ∷ []) two_gaps).current ≡ 26
unfolding run
collapse_run = refl

sync_run : (run (syncs 27 ∷ []) two_gaps).gaps ≡ 27 ∷ []
unfolding run
sync_run = refl

effective_run : effective_next_nonce two_gaps ≡ 26
unfolding effective_next_nonce
effective_run = refl

two_gaps-IsValid : IsValid two_gaps
two_gaps-IsValid = record {
  ahead = omega arith;
  word = omega arith;
  ordered = omega arith;
  counted = refl;
}

get_and_increment-Takes_case : Takes two_gaps (get_and_increment two_gaps)
get_and_increment-Takes_case = get_and_increment-Takes two_gaps (omega arith) two_gaps-IsValid

release-available_example : available (release two_gaps 28) 28 ≡ (available two_gaps 28 || true)
release-available_example = release-available two_gaps 28 28 two_gaps-IsValid

sync_forward-available_case :
    available (sync_forward two_gaps 27).0 26 ≡ (available two_gaps 26 && false)
sync_forward-available_case = sync_forward-available two_gaps 27 26 two_gaps-IsValid

recover_stalled-available_case :
    available (recover_stalled two_gaps 27).0 28
    ≡ (if (recover_stalled two_gaps 27).1 then true else available two_gaps 28)
recover_stalled-available_case = recover_stalled-available two_gaps 27 28

after-IsValid_example : IsValid (after (releases 28) two_gaps)
after-IsValid_example = after-IsValid (releases 28) two_gaps tt two_gaps-IsValid
