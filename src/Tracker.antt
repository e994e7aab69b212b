-- ===== src/Tracker.antt =====
-- src/nonce.rs, `NonceTracker`: the counters and recycled gaps of one address. An operation is taken
-- as a whole: its loads and its compare-exchange see one state, so the exchange meets what was read.
pub mod Invariant
pub mod Availability
pub mod Pending
pub mod Calls
mod Tests
use fast_wallet.Base.{
  ℕ, zero, suc, ◌+◌, ◌-◌, ◌<◌, Bool, true, false, ◌&&◌, Option, none, some, List, [], ◌∷◌, length,
  ltb, leb, ◌==◌, if◌then◌else◌, unwrap_or, u64_mod, wrapping_add, wrapping_sub,
}
use fast_wallet.NonceSet.{contains, first, insert, remove, retain_from}

pub record NonceTracker : Type 0 where
  pub current : ℕ
  pub pending_count : ℕ
  pub synced_nonce : ℕ
  pub gaps : List ℕ
  pub gap_count : ℕ

unfoldable pub new : ℕ → NonceTracker
new initial_nonce = record {
  current = initial_nonce;
  pending_count = 0;
  synced_nonce = initial_nonce;
  gaps = [];
  gap_count = 0;
}

-- `self.current.fetch_add(1)`.
unfoldable pub take_current : NonceTracker → NonceTracker × ℕ
take_current t = (record t { current = wrapping_add t.current 1 }, t.current)

-- The locked part: the lowest gap, if there is one.
unfoldable pub pop_gap : List ℕ → NonceTracker → NonceTracker × ℕ
unfolding take_current
pop_gap [] t = take_current t
pop_gap (nonce ∷ rest) t =
    (record t { gaps = remove nonce t.gaps; gap_count = wrapping_sub t.gap_count 1 }, nonce)

unfoldable pub reserve_next_nonce : NonceTracker → NonceTracker × ℕ
unfolding pop_gap take_current
reserve_next_nonce t = if ltb 0 t.gap_count then pop_gap t.gaps t else take_current t

unfoldable pub get_and_increment : NonceTracker → NonceTracker × ℕ
unfolding reserve_next_nonce
get_and_increment t =
    reserve_next_nonce (record t { pending_count = wrapping_add t.pending_count 1 })

unfoldable pub peek : NonceTracker → ℕ
peek t = t.current

-- The lowest gap, else the counter.
unfoldable pub effective_next_nonce : NonceTracker → ℕ
effective_next_nonce t = unwrap_or (first t.gaps) t.current

-- `fetch_update(|pending| pending.checked_sub(1))`, its failure ignored.
unfoldable pub decrement_pending : NonceTracker → NonceTracker
decrement_pending t =
    if ltb 0 t.pending_count then record t { pending_count = t.pending_count - 1 } else t

unfoldable pub confirm : NonceTracker → NonceTracker
unfolding decrement_pending
confirm t = decrement_pending t

unfoldable pub reset_pending : NonceTracker → NonceTracker
reset_pending t = record t { pending_count = 0 }

-- The rounds of `collapse_top_gaps`; the first argument is the counter.
unfoldable pub collapse_from : ℕ → NonceTracker → NonceTracker
collapse_from zero t = record t { current = zero }
collapse_from (suc previous) t =
    let next =
      collapse_from previous
        (record t { gaps = remove previous t.gaps; gap_count = wrapping_sub t.gap_count 1 }) in
    if ltb previous t.synced_nonce
    then record t { current = suc previous }
    else if contains previous t.gaps
    then next
    else record t { current = suc previous }

unfoldable pub collapse_top_gaps : NonceTracker → NonceTracker
unfolding collapse_from
collapse_top_gaps t = collapse_from t.current t

-- The end of `recycle_nonce`, where the exchange of the counter failed.
unfoldable pub insert_gap : NonceTracker → ℕ → NonceTracker
insert_gap t used_nonce =
    if leb t.synced_nonce used_nonce && ltb used_nonce t.current
    then (if contains used_nonce t.gaps
        then t
        else record t { gaps = insert used_nonce t.gaps; gap_count = wrapping_add t.gap_count 1 })
    else t

-- `checked_add(1)` fails at the largest word.
unfoldable pub recycle_nonce : NonceTracker → ℕ → NonceTracker
unfolding collapse_top_gaps insert_gap
recycle_nonce t used_nonce =
    if ltb used_nonce t.synced_nonce
    then t
    else if ltb (suc used_nonce) u64_mod && t.current == suc used_nonce
    then collapse_top_gaps (record t { current = used_nonce })
    else insert_gap t used_nonce

unfoldable pub release : NonceTracker → ℕ → NonceTracker
unfolding decrement_pending recycle_nonce
release t used_nonce = recycle_nonce (decrement_pending t) used_nonce

-- The prune, and the raise of the synced nonce.
abbrev pruned : NonceTracker → ℕ → NonceTracker
pruned t chain_nonce = record t {
  gaps = retain_from chain_nonce t.gaps;
  gap_count = length (retain_from chain_nonce t.gaps);
  synced_nonce = if ltb t.synced_nonce chain_nonce then chain_nonce else t.synced_nonce;
}

unfoldable pub sync_forward : NonceTracker → ℕ → NonceTracker × Bool
sync_forward t chain_nonce =
    if leb chain_nonce t.current
    then (pruned t chain_nonce, false)
    else (record (pruned t chain_nonce) { current = chain_nonce }, true)

unfoldable pub set : NonceTracker → ℕ → NonceTracker
unfolding sync_forward
set t nonce = (sync_forward t nonce).0

unfoldable pub recover_stalled : NonceTracker → ℕ → NonceTracker × Bool
recover_stalled t chain_nonce = if leb t.current chain_nonce then (t, false) else (
  record t { current = chain_nonce; gaps = []; gap_count = 0; synced_nonce = chain_nonce },
  true,
)
