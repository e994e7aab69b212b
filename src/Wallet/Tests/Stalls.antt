-- ===== src/Wallet/Tests/Stalls.antt =====
-- A check that finds a nonce stranded for 31 seconds, one above the chain's.
use fast_wallet.Base.{◌+◌, ◌<◌, ◌≡◌, ◌↔◌, ◌⊎◌, refl, true, arith, [], ◌∷◌, none, some}
use fast_wallet.Errors.{ok}
use fast_wallet.Tracker
use fast_wallet.Ledger.{InflightNonceRecord, InflightNonceSnapshot, signed}
use fast_wallet.Wallet.{FastWallet}
use fast_wallet.Wallet.Stall.{NonceHealth, nonce_health_check}
use fast_wallet.Wallet.Stalled.{Stranded, health_stalled_iff}

abbrev waiting : InflightNonceRecord
waiting = record {
  nonce = 9;
  tx_hashes = 77 ∷ [];
  status = signed;
  first_seen = 5;
  accepted_broadcasts = 0;
  release_reason = none;
  max_fee_seen = some 30;
  max_priority_seen = some 2;
}

abbrev wallet : FastWallet
wallet = record {
  tracker = Tracker.new 10;
  inflight = (9, waiting) ∷ [];
  last_stall_replace = none;
}

abbrev health : NonceHealth
health = record {
  current = 10;
  effective_next = 10;
  chain_next = 9;
  chain_latest = some 9;
  gap_count = 0;
  inflight_count = 1;
  lowest_unresolved = some (record {
    nonce = 9;
    tx_hashes = 77 ∷ [];
    status = signed;
    age = 31_000_000_000;
    accepted_broadcasts = 0;
    release_reason = none;
    max_fee_seen = some 30;
    max_priority_seen = some 2;
  });
  stalled = true;
}

-- A nonce is reserved while the check waits for the pending one, which it does not see.
abbrev meanwhile : FastWallet → FastWallet
meanwhile w = record w { tracker = (Tracker.get_and_increment w.tracker).0 }

health_run :
    nonce_health_check wallet meanwhile (ok 9) (λ w. w) (ok 9) 31_000_000_005
    ≡ (meanwhile wallet, ok health)
unfolding nonce_health_check fast_wallet.Ledger.prune_consumed Tracker.peek
    Tracker.effective_next_nonce Tracker.get_and_increment Tracker.new
    fast_wallet.Ledger.unresolved_count fast_wallet.Ledger.lowest_unresolved_at_or_above
    fast_wallet.Wallet.Stall.nonce_stalled fast_wallet.OrderedMap.from_key
    fast_wallet.OrderedMap.find fast_wallet.Ledger.snapshot
health_run = refl

health_stalled_iff_example : (true ≡ true) ↔ (
    (9 < Tracker.effective_next_nonce wallet.tracker)
    × (Stranded (meanwhile wallet).inflight 9 31_000_000_005
        ⊎ (9 + 2 < Tracker.effective_next_nonce wallet.tracker)))
health_stalled_iff_example =
    health_stalled_iff wallet (meanwhile wallet) meanwhile (λ w. w) 9 31_000_000_005 (ok 9) health
      (omega arith, tt) (refl, tt) (omega arith) health_run
