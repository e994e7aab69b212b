-- ===== src/Ledger/Tests.antt =====
-- A ledger with a stranded nonce and a released one, and the theorems on ledgers at it.
use fast_wallet.Base.{ℕ, ◌≤◌, ◌≡◌, ◌↔◌, refl, true, false, List, [], ◌∷◌, length, none, some, arith}
use fast_wallet.NonceSet.{insert}
use fast_wallet.OrderedMap.{lookup, alter, from_key, find, Ordered}
use fast_wallet.Ledger.{
  InflightNonceLedger, InflightNonceRecord, signed, broadcast_accepted, released,
  max_tracked_nonces, updated, resigned, snapshot, mark_released, mark_committed, prune_consumed,
  prune_old_records, lowest_unresolved_at_or_above, unresolved_count, unresolved, is_unresolved,
}
use fast_wallet.Ledger.Bounds.{
  Op, signs, accepts, releases, consumes, apply, apply-Ordered, length-apply, length-mark_unpruned,
}
use fast_wallet.Ledger.Records.{Evolves, LeFee, apply-Evolves, record_signed_fees}
use fast_wallet.Ledger.Lowest.{Keyed, apply-Keyed, lowest_sound, lowest_least, count-lowest}

abbrev released_record : InflightNonceRecord
released_record = record {
  nonce = 10;
  tx_hashes = 1 ∷ [];
  status = released;
  first_seen = 100;
  accepted_broadcasts = 1;
  release_reason = some "candidate_dropped";
  max_fee_seen = some 50;
  max_priority_seen = some 5;
}

abbrev stranded_record : InflightNonceRecord
stranded_record = record {
  nonce = 11;
  tx_hashes = 2 ∷ [];
  status = broadcast_accepted;
  first_seen = 200;
  accepted_broadcasts = 1;
  release_reason = none;
  max_fee_seen = some 70;
  max_priority_seen = none;
}

abbrev two_records : InflightNonceLedger
two_records = (10, released_record) ∷ (11, stranded_record) ∷ []

run : List (Op × ℕ) → InflightNonceLedger → InflightNonceLedger
unfolding apply alter insert prune_old_records from_key updated resigned
run [] l = l
run ((op, now) ∷ rest) l = run rest (apply op l now)

two_records-run :
    run
      ((signs 10 1 (some 50) (some 5), 100)
        ∷ (accepts 10 1, 150)
        ∷ (signs 11 2 (some 70) none, 200)
        ∷ (accepts 11 2, 210)
        ∷ (releases 10 "candidate_dropped", 220)
        ∷ [])
      []
    ≡ two_records
unfolding run
two_records-run = refl

-- The released nonce is handed out again: its clock and its acceptances start anew, its fees do not.
abbrev restarted_record : InflightNonceRecord
restarted_record = record released_record {
  tx_hashes = 1 ∷ 3 ∷ [];
  status = signed;
  first_seen = 300;
  accepted_broadcasts = 0;
  release_reason = none;
}

restart_run : lookup 10 (apply (signs 10 3 (some 20) none) two_records 300) ≡ some restarted_record
unfolding apply alter insert prune_old_records lookup resigned
restart_run = refl

lowest_run : lowest_unresolved_at_or_above two_records 10 260 ≡ some (snapshot stranded_record 260)
unfolding lowest_unresolved_at_or_above find from_key
lowest_run = refl

apply-Ordered_case : Ordered 0 (apply (consumes 11) two_records 0)
apply-Ordered_case = apply-Ordered (consumes 11) two_records 0 (omega arith)

apply-Keyed_example : Keyed (apply (consumes 11) two_records 0)
apply-Keyed_example = apply-Keyed (consumes 11) two_records 0 (omega arith)

length-apply_case : length (apply (accepts 9 4) two_records 300) ≤ max_tracked_nonces
length-apply_case = length-apply (accepts 9 4) two_records 300 refl (omega arith)

length-mark_unpruned_example :
    (length (mark_released two_records 12 "manual_release" 300) ≡ 3)
    × (length (mark_committed two_records 12 300) ≡ 3)
unfolding lookup
length-mark_unpruned_example =
    length-mark_unpruned 12 "manual_release" two_records 300 (omega arith) refl

apply-Evolves_example : Evolves 300 released_record restarted_record
unfolding lookup
apply-Evolves_example =
    apply-Evolves (signs 10 3 (some 20) none) two_records 300 10 released_record restarted_record
      (omega arith) refl restart_run

record_signed_fees_case :
    LeFee (some 20) restarted_record.max_fee_seen × LeFee none restarted_record.max_priority_seen
unfolding apply
record_signed_fees_case =
    record_signed_fees 10 3 300 (some 20) none two_records restarted_record (omega arith)
      restart_run

lowest_sound_case :
    (r : InflightNonceRecord) × (lookup 11 two_records ≡ some r)
    × (snapshot stranded_record 260 ≡ snapshot r 260)
    × (10 ≤ 11)
    × (is_unresolved broadcast_accepted ≡ true)
unfolding snapshot
lowest_sound_case =
    lowest_sound two_records 10 260 (snapshot stranded_record 260) (omega arith) (omega arith)
      lowest_run

lowest_least_case : unresolved released_record ≡ false
unfolding lookup snapshot
lowest_least_case =
    lowest_least two_records 10 260 10 (snapshot stranded_record 260) released_record (omega arith)
      (omega arith) lowest_run refl (omega arith) (omega arith)

count-lowest_case :
    (unresolved_count (prune_consumed two_records 11) ≡ 0)
    ↔ (lowest_unresolved_at_or_above (prune_consumed two_records 11) 11 260 ≡ none)
count-lowest_case = count-lowest two_records 11 260
