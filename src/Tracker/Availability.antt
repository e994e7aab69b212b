-- ===== src/Tracker/Availability.antt =====
-- The nonces that a tracker can still hand out, as a set: the recycled gaps and all from the counter
-- on. Each operation changes this set in one way, whichever branch it takes.
use fast_wallet.Base.{
  ℕ, zero, suc, ◌≤◌, ◌<◌, ◌≡◌, refl, Bool, true, false, ◌&&◌, ◌||◌, not, List, [], ◌∷◌, ltb, leb,
  ◌==◌, arith, u64_mod, inl, inr, Bool-cases, ◌∙◌, if◌then◌else◌,
}
use fast_wallet.NonceSet.{
  contains, Between, contains-Between, contains_below, contains-insert, contains-remove,
  contains-retain_from,
}
use fast_wallet.Tracker.{
  NonceTracker, new, take_current, pop_gap, reserve_next_nonce, get_and_increment,
  decrement_pending, effective_next_nonce, collapse_from, collapse_top_gaps, insert_gap,
  recycle_nonce, release, sync_forward, recover_stalled,
}
use fast_wallet.Tracker.Invariant.{
  IsValid, collapse_round, decrement_pending-IsValid, pending-IsValid,
}

unfoldable pub available : NonceTracker → ℕ → Bool
available t n = contains n t.gaps || leb t.current n

pub available-new : (n m : ℕ) → available (new n) m ≡ leb n m
unfolding available new contains
available-new n m = refl

-- What a reservation does: the nonce was available, it is the least such, the one announced by
-- `effective_next_nonce`, and it alone leaves the set.
abbrev pub Takes : NonceTracker → NonceTracker × ℕ → Type 0
Takes t (t', nonce) =
    (available t nonce ≡ true)
    × ((m : ℕ) → (ltb m nonce && available t m) ≡ false)
    × (nonce ≡ effective_next_nonce t)
    × ((m : ℕ) → available t' m ≡ (available t m && not (m == nonce)))

take_current-Takes :
    (t : NonceTracker) → t.gaps ≡ [] → suc t.current < u64_mod → Takes t (take_current t)
unfolding take_current available effective_next_nonce contains
take_current-Takes t e h = (ground arith, λ m. ground arith, ground arith, λ m. ground arith)

pop_gap-Takes :
    (gs : List ℕ) (t : NonceTracker)
    → t.gaps ≡ gs
    → suc t.current < u64_mod
    → IsValid t
    → Takes t (pop_gap gs t)
unfolding pop_gap
pop_gap-Takes [] t e h v = take_current-Takes t e h
pop_gap-Takes (x ∷ xs) t e h v =
    let ordered : Between t.synced_nonce t.current (x ∷ xs) = rw e at v.ordered in
    unfold available effective_next_nonce contains in
    (
      ground arith,
      λ m. ground (arith, contains_below m (suc x) t.current xs ordered.2),
      ground arith,
      λ m. ground (arith, contains-remove m x t.synced_nonce t.current t.gaps v.ordered),
    )

pub reserve_next_nonce-Takes :
    (t : NonceTracker) → suc t.current < u64_mod → IsValid t → Takes t (reserve_next_nonce t)
unfolding reserve_next_nonce
reserve_next_nonce-Takes t h v = elim (Bool-cases (ltb 0 t.gap_count)) [
  | inl some_gap ↦ rw some_gap (pop_gap-Takes t.gaps t refl h v)
  | inr no_gap ↦ rw no_gap (take_current-Takes t (ground (arith, v.counted)) h)
]

available-pending :
    (t : NonceTracker) (n m : ℕ) → available (record t { pending_count = n }) m ≡ available t m
unfolding available
available-pending t n m = refl

pub available-decrement_pending :
    (t : NonceTracker) (m : ℕ) → available (decrement_pending t) m ≡ available t m
unfolding available decrement_pending
available-decrement_pending t m = ground arith

-- In a valid tracker whose counter has room in the word, a reservation takes the least available nonce,
-- the one that `effective_next_nonce` announced, and no other.
pub get_and_increment-Takes :
    (t : NonceTracker) → suc t.current < u64_mod → IsValid t → Takes t (get_and_increment t)
unfolding get_and_increment available effective_next_nonce
get_and_increment-Takes t h v = reserve_next_nonce-Takes _ h (pending-IsValid t _ v)

collapse_from-available :
    (c : ℕ) (t : NonceTracker) (m : ℕ)
    → Between t.synced_nonce (suc c) t.gaps
    → available (collapse_from c t) m ≡ (contains m t.gaps || leb c m)
unfolding collapse_from available
collapse_from-available zero t m o = refl
collapse_from-available (suc p) t m o = elim (Bool-cases (ltb p t.synced_nonce)) [
  | inl stop ↦ rw stop refl
  | inr go ↦ rw go (elim (Bool-cases (contains p t.gaps)) [
    | inl top ↦ rw top (
        collapse_from-available p _ m (collapse_round p t o top)
        ∙ ground (arith, contains-remove m p t.synced_nonce (suc (suc p)) t.gaps o))
    | inr free ↦ rw free refl
  ])
]

insert_gap-available :
    (t : NonceTracker) (n m : ℕ)
    → t.synced_nonce ≤ n
    → available (insert_gap t n) m ≡ (available t m || m == n)
unfolding insert_gap available
insert_gap-available t n m h = ground (arith, contains-insert m n t.gaps)

step_down-available :
    (t : NonceTracker) (n m : ℕ)
    → t.current ≡ suc n
    → IsValid t
    → available (collapse_top_gaps (record t { current = n })) m ≡ (available t m || m == n)
unfolding collapse_top_gaps
step_down-available t n m e v =
    collapse_from-available n _ m (rw e at v.ordered) ∙ unfold available in ground arith

pub recycle_nonce-available :
    (t : NonceTracker) (n m : ℕ)
    → IsValid t
    → available (recycle_nonce t n) m ≡ (available t m || (leb t.synced_nonce n && m == n))
unfolding recycle_nonce
recycle_nonce-available t n m v =
    ground (arith, step_down-available t n m, insert_gap-available t n m)

-- In a valid tracker, a release makes exactly the released nonce available, unless the chain has consumed it.
pub release-available :
    (t : NonceTracker) (n m : ℕ)
    → IsValid t
    → available (release t n) m ≡ (available t m || (leb t.synced_nonce n && m == n))
unfolding release
release-available t n m v =
    recycle_nonce-available (decrement_pending t) n m (decrement_pending-IsValid t v)
    ∙ ground (arith, available-decrement_pending t m)

-- In a valid tracker, a sync withdraws exactly the nonces below the chain's, and never brings one back.
pub sync_forward-available :
    (t : NonceTracker) (n m : ℕ)
    → IsValid t
    → available (sync_forward t n).0 m ≡ (available t m && leb n m)
unfolding sync_forward available
sync_forward-available t n m v = ground (
  arith,
  contains-retain_from m n t.gaps,
  contains-Between m t.synced_nonce t.current t.gaps v.ordered,
)

-- A recovery that rewinds makes exactly the nonces from the chain's on available; else nothing changes.
pub recover_stalled-available :
    (t : NonceTracker) (n m : ℕ)
    → available (recover_stalled t n).0 m
      ≡ (if (recover_stalled t n).1 then leb n m else available t m)
unfolding recover_stalled available contains
recover_stalled-available t n m = ground arith
