-- ===== src/Tracker/Invariant.antt =====
-- Well-formedness of a tracker, kept by every operation.
use fast_wallet.Base.{
  ℕ, zero, suc, ◌≤◌, ◌<◌, ◌≡◌, ◌≢◌, refl, true, List, [], ◌∷◌, length, ltb, arith, u64_mod, inl,
  inr, Bool-cases,
}
use fast_wallet.NonceSet.{
  contains, insert, remove, retain_from, Between, Between-weaken, insert-Between, remove-Between,
  retain_from-Between, retain_from-above, retain_from-empty, length-insert, length-remove,
  length-Between, contains-remove, contains_below, remove-head, Between-narrow, Between-empty,
}
use fast_wallet.Tracker.{
  NonceTracker, new, take_current, pop_gap, reserve_next_nonce, get_and_increment,
  decrement_pending, collapse_from, collapse_top_gaps, insert_gap, recycle_nonce, release,
  sync_forward, recover_stalled,
}

-- The gaps are ordered without repetition, lie in the synced range and strictly below the last nonce
-- handed out, and are counted right.
pub record IsValid (t : NonceTracker) : Type 0 where
  pub ahead : t.synced_nonce ≤ t.current
  pub word : t.current < u64_mod
  pub ordered : Between t.synced_nonce t.current t.gaps
  pub counted : t.gap_count ≡ length t.gaps

pub new-IsValid : (n : ℕ) → n < u64_mod → IsValid (new n)
unfolding new
new-IsValid n h = record { ahead = omega arith; word = h; ordered = tt; counted = refl }

take_current-IsValid :
    (t : NonceTracker) → suc t.current < u64_mod → IsValid t → IsValid (take_current t).0
unfolding take_current
take_current-IsValid t h v =
    ground (arith, Between-weaken t.synced_nonce t.synced_nonce t.current (suc t.current) t.gaps)

pop_gap-IsValid :
    (gs : List ℕ) (t : NonceTracker)
    → t.gaps ≡ gs
    → suc t.current < u64_mod
    → IsValid t
    → IsValid (pop_gap gs t).0
unfolding pop_gap
pop_gap-IsValid [] t e h v = take_current-IsValid t h v
pop_gap-IsValid (x ∷ xs) t e h v =
    let rest : remove x t.gaps ≡ xs = rw e (remove-head x xs) in
    ground (
      arith,
      rest,
      Between-weaken (suc x) t.synced_nonce t.current t.current xs,
      length-Between t.synced_nonce t.current t.gaps v.ahead v.ordered,
    )

pub reserve_next_nonce-IsValid :
    (t : NonceTracker) → suc t.current < u64_mod → IsValid t → IsValid (reserve_next_nonce t).0
unfolding reserve_next_nonce
reserve_next_nonce-IsValid t h v = elim (Bool-cases (ltb 0 t.gap_count)) [
  | inl some_gap ↦ rw some_gap (pop_gap-IsValid t.gaps t refl h v)
  | inr no_gap ↦ rw no_gap (take_current-IsValid t h v)
]

-- Only the pending count of the two trackers may differ.
pub pending-IsValid :
    (t : NonceTracker) (n : ℕ) → IsValid t → IsValid (record t { pending_count = n })
pending-IsValid t n v = record {
  ahead = v.ahead;
  word = v.word;
  ordered = v.ordered;
  counted = v.counted;
}

pub get_and_increment-IsValid :
    (t : NonceTracker) → suc t.current < u64_mod → IsValid t → IsValid (get_and_increment t).0
unfolding get_and_increment
get_and_increment-IsValid t h v = reserve_next_nonce-IsValid _ h (pending-IsValid t _ v)

pub decrement_pending-IsValid : (t : NonceTracker) → IsValid t → IsValid (decrement_pending t)
unfolding decrement_pending
decrement_pending-IsValid t v = ground arith

-- One round: the top gap leaves the set, and what is left fits below it.
pub collapse_round :
    (p : ℕ) (t : NonceTracker)
    → Between t.synced_nonce (suc (suc p)) t.gaps
    → contains p t.gaps ≡ true
    → Between t.synced_nonce (suc p) (remove p t.gaps)
collapse_round p t o h =
    Between-narrow p t.synced_nonce (remove p t.gaps)
      (remove-Between p t.synced_nonce (suc (suc p)) t.gaps o)
      (ground (arith, contains-remove p p t.synced_nonce (suc (suc p)) t.gaps o))

collapse_from-IsValid :
    (c : ℕ) (t : NonceTracker)
    → t.synced_nonce ≤ c
    → c < u64_mod
    → Between t.synced_nonce (suc c) t.gaps
    → t.gap_count ≡ length t.gaps
    → IsValid (collapse_from c t)
unfolding collapse_from
collapse_from-IsValid zero t a w o g =
    let none_left : t.gaps ≡ [] = Between-empty t.synced_nonce t.gaps o in
    record { ahead = a; word = w; ordered = rw none_left tt; counted = g }
collapse_from-IsValid (suc p) t a w o g = elim (Bool-cases (ltb p t.synced_nonce)) [
  | inl stop ↦ rw stop (record {
    ahead = a;
    word = w;
    ordered =
        Between-narrow p t.synced_nonce t.gaps o
          (contains_below p t.synced_nonce (suc (suc p)) t.gaps o (ground arith));
    counted = g;
  })
  | inr go ↦ rw go (elim (Bool-cases (contains p t.gaps)) [
    | inl top ↦ rw top (
        collapse_from-IsValid p _ (ground arith) (omega arith) (collapse_round p t o top) (
          omega (
            arith,
            length-remove p t.gaps top,
            length-Between t.synced_nonce (suc (suc p)) t.gaps (omega arith) o,
          )))
    | inr free ↦ rw free (record {
      ahead = a;
      word = w;
      ordered = Between-narrow p t.synced_nonce t.gaps o free;
      counted = g;
    })
  ])
]

insert_gap-IsValid :
    (t : NonceTracker) (n : ℕ) → t.current ≢ suc n → IsValid t → IsValid (insert_gap t n)
unfolding insert_gap
insert_gap-IsValid t n d v = ground (
  arith,
  insert-Between n t.synced_nonce t.current t.gaps,
  length-insert n t.synced_nonce t.current t.gaps v.ordered,
  length-Between t.synced_nonce t.current (insert n t.gaps) v.ahead,
)

-- The nonce below the counter comes back: the counter steps down, and over every gap below it.
step_down-IsValid :
    (t : NonceTracker) (n : ℕ)
    → t.current ≡ suc n
    → t.synced_nonce ≤ n
    → IsValid t
    → IsValid (collapse_top_gaps (record t { current = n }))
unfolding collapse_top_gaps
step_down-IsValid t n e a v =
    collapse_from-IsValid n _ a (omega (arith, v.word)) (rw e at v.ordered) v.counted

pub recycle_nonce-IsValid : (t : NonceTracker) (n : ℕ) → IsValid t → IsValid (recycle_nonce t n)
unfolding recycle_nonce
recycle_nonce-IsValid t n v = ground (arith, step_down-IsValid t n, insert_gap-IsValid t n)

pub release-IsValid : (t : NonceTracker) (n : ℕ) → IsValid t → IsValid (release t n)
unfolding release
release-IsValid t n v = recycle_nonce-IsValid _ n (decrement_pending-IsValid t v)

pub sync_forward-IsValid :
    (t : NonceTracker) (n : ℕ) → n < u64_mod → IsValid t → IsValid (sync_forward t n).0
unfolding sync_forward
sync_forward-IsValid t n h v = ground (
  arith,
  retain_from-Between n t.synced_nonce t.current t.gaps v.ordered,
  retain_from-above n t.synced_nonce t.current t.gaps v.ordered,
  Between-weaken n n t.current n (retain_from n t.gaps),
  retain_from-empty n t.synced_nonce t.current t.gaps,
)

pub recover_stalled-IsValid :
    (t : NonceTracker) (n : ℕ) → IsValid t → IsValid (recover_stalled t n).0
unfolding recover_stalled
recover_stalled-IsValid t n v = ground arith
