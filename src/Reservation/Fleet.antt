-- ===== src/Reservation/Fleet.antt =====
-- Any number of guards over one tracker, their operations in any order, with chain syncs between them
-- and the recovery that callers may run once no nonce from the chain's on is in use.
use fast_wallet.Base.{
  ℕ, suc, ◌∙◌, ◌+◌, ◌≤◌, ◌<◌, ◌≡◌, ◌≢◌, refl, Bool, true, false, ◌&&◌, some, List, [], ◌∷◌, ◌==◌,
  if◌then◌else◌, arith, u64_mod, get_elem?, set, weigh, weigh-set, weigh_two, le-weigh,
}
use fast_wallet.Tracker
use fast_wallet.Tracker.{NonceTracker}
use fast_wallet.Tracker.Invariant.{
  IsValid, get_and_increment-IsValid, release-IsValid, sync_forward-IsValid,
  recover_stalled-IsValid, decrement_pending-IsValid, new-IsValid,
}
use fast_wallet.Tracker.Availability.{
  available, get_and_increment-Takes, release-available, sync_forward-available,
  recover_stalled-available, available-decrement_pending,
}
use fast_wallet.Tracker.Pending.{
  pending-get_and_increment, pending-release, pending-decrement_pending, pending-sync_forward,
  pending-recover_stalled,
}
use fast_wallet.Reservation.{
  ReservedNonceState, held, broadcasting, committed, released, ReservedNonce, Outcome, reserve,
  mark_broadcasting, commit, release, release_rejected_broadcast, drop,
}

pub record Fleet : Type 0 where
  pub tracker : NonceTracker
  pub guards : List ReservedNonce

pub data Call : Type 0 where
  marks commits releases rejects drops : Call

unfoldable pub apply : Call → NonceTracker → ReservedNonce → Outcome
unfolding mark_broadcasting commit release release_rejected_broadcast drop
apply marks = mark_broadcasting
apply commits = commit
apply releases = release
apply rejects = release_rejected_broadcast
apply drops = drop

abbrev pub in_use : ReservedNonceState → Bool
in_use released = false
in_use _ = true

-- A nonce that no RPC endpoint has accepted and no release has returned.
abbrev pub unsettled : ReservedNonceState → ℕ
unsettled held = 1
unsettled broadcasting = 1
unsettled committed = 0
unsettled released = 0

abbrev pub uses : ℕ → ReservedNonce → ℕ
uses n r = if r.nonce == n && in_use r.state then 1 else 0

abbrev pub flag : Bool → ℕ
flag true = 1
flag false = 0

pub data Step (f : Fleet) : Fleet → Type 0 where
  reserves :
      suc f.tracker.current < u64_mod
      → suc f.tracker.pending_count < u64_mod
      → Step f
          (record { tracker = (reserve f.tracker).0; guards = (reserve f.tracker).1 ∷ f.guards })
  acts :
      (c : Call) (i : ℕ) (r : ReservedNonce)
      → get_elem? f.guards i ≡ some r
      → Step f (record {
        tracker = (apply c f.tracker r).0;
        guards = set f.guards i (apply c f.tracker r).1;
      })
  syncs :
      (n : ℕ) → n < u64_mod → Step f (record f { tracker = (Tracker.sync_forward f.tracker n).0 })
  recovers :
      (n : ℕ)
      → ((m : ℕ) → n ≤ m → weigh (uses m) f.guards ≡ 0)
      → Step f (record f { tracker = (Tracker.recover_stalled f.tracker n).0 })

pub data Reach (initial : ℕ) : Fleet → Type 0 where
  start : Reach initial (record { tracker = Tracker.new initial; guards = [] })
  later : {f g : Fleet} → Reach initial f → Step f g → Reach initial g

pub record IsSound (f : Fleet) : Type 0 where
  pub valid : IsValid f.tracker
  pub single : (n : ℕ) → weigh (uses n) f.guards + flag (available f.tracker n) ≤ 1
  pub owing : f.tracker.pending_count ≡ weigh (λ r. unsettled r.state) f.guards

apply-IsValid :
    (c : Call) (t : NonceTracker) (r : ReservedNonce) → IsValid t → IsValid (apply c t r).0
unfolding apply Tracker.confirm
apply-IsValid c t r v = ground (arith, release-IsValid t r.nonce v, decrement_pending-IsValid t v)

-- A call frees a nonce only by giving up the use of it.
apply-uses :
    (c : Call) (t : NonceTracker) (r : ReservedNonce) (n : ℕ)
    → IsValid t
    → uses n (apply c t r).1 + flag (available (apply c t r).0 n) ≤ uses n r + flag (available t n)
unfolding apply Tracker.confirm
apply-uses c t r n v =
    ground (arith, release-available t r.nonce n v, available-decrement_pending t n)

-- A call takes a nonce off the pending count when it settles it, and only then.
apply-pending :
    (c : Call) (t : NonceTracker) (r : ReservedNonce)
    → unsettled r.state ≤ t.pending_count
    → (apply c t r).0.pending_count + unsettled r.state
      ≡ t.pending_count + unsettled (apply c t r).1.state
unfolding apply Tracker.confirm
apply-pending c t r h = ground (arith, pending-release t r.nonce, pending-decrement_pending t)

-- `reserve` adds one use, of a nonce that leaves the available set.
reserve-uses :
    (t : NonceTracker) (n : ℕ)
    → suc t.current < u64_mod
    → IsValid t
    → uses n (reserve t).1 + flag (available (reserve t).0 n) ≡ flag (available t n)
unfolding reserve
reserve-uses t n h v = let took = get_and_increment-Takes t h v in ground (arith, took.0, took.3 n)

-- Every step keeps the fleet sound.
pub Step-IsSound : {f g : Fleet} → Step f g → IsSound f → IsSound g
Step-IsSound {f} (reserves c p) s = record {
  valid = unfold reserve in get_and_increment-IsValid f.tracker c s.valid;
  single = λ n. omega (arith, reserve-uses f.tracker n c s.valid, s.single n);
  owing = unfold reserve in omega (arith, pending-get_and_increment f.tracker, s.owing);
}
Step-IsSound {f} (acts c i r at) s = record {
  valid = apply-IsValid c f.tracker r s.valid;
  single = λ n. omega (
    arith,
    apply-uses c f.tracker r n s.valid,
    weigh-set (uses n) f.guards i r (apply c f.tracker r).1 at,
    s.single n,
  );
  owing =
      let w = λ (q : ReservedNonce). unsettled q.state in
      let here : unsettled r.state ≤ f.tracker.pending_count =
        omega (arith, s.owing, le-weigh w f.guards i r at) in
      omega (
        arith,
        s.owing,
        apply-pending c f.tracker r here,
        weigh-set w f.guards i r (apply c f.tracker r).1 at,
      );
}
Step-IsSound {f} (syncs n h) s = record {
  valid = sync_forward-IsValid f.tracker n h s.valid;
  single = λ m. ground (arith, sync_forward-available f.tracker n m s.valid, s.single m);
  owing = pending-sync_forward f.tracker n ∙ s.owing;
}
Step-IsSound {f} (recovers n unused) s = record {
  valid = recover_stalled-IsValid f.tracker n s.valid;
  single = λ m. ground (arith, recover_stalled-available f.tracker n m, s.single m, unused m);
  owing = pending-recover_stalled f.tracker n ∙ s.owing;
}

pub Reach-IsSound : {initial : ℕ} {f : Fleet} → initial < u64_mod → Reach initial f → IsSound f
Reach-IsSound {initial} h start = record {
  valid = new-IsValid initial h;
  single = λ n. ground arith;
  owing = unfold Tracker.new in refl;
}
Reach-IsSound h (later r st) = Step-IsSound st (Reach-IsSound h r)

-- In every fleet that its steps reach from a first nonce within the word, two guards in use never hold the
-- same nonce.
pub no_nonce_shared :
    {initial : ℕ} {f : Fleet}
    → initial < u64_mod
    → Reach initial f
    → (i j : ℕ) (a b : ReservedNonce) → get_elem? f.guards i ≡ some a
    → get_elem? f.guards j ≡ some b
    → in_use a.state ≡ true
    → in_use b.state ≡ true
    → i ≢ j
    → a.nonce ≢ b.nonce
no_nonce_shared {f} h r i j a b at_i at_j used_a used_b d e =
    let s = Reach-IsSound h r in
    ground (arith, weigh_two (uses a.nonce) f.guards i j a b at_i at_j d, s.single a.nonce)

-- In every fleet that its steps reach from a first nonce within the word, while the counter has room in the
-- word, the next reservation gets a nonce that no guard in use holds.
pub reserve_fresh :
    {initial : ℕ} {f : Fleet}
    → initial < u64_mod
    → Reach initial f
    → suc f.tracker.current < u64_mod
    → (i : ℕ) (a : ReservedNonce) → get_elem? f.guards i ≡ some a
    → in_use a.state ≡ true
    → (reserve f.tracker).1.nonce ≢ a.nonce
unfolding reserve
reserve_fresh {f} h r c i a at used e =
    let s = Reach-IsSound h r in
    ground (
      arith,
      (get_and_increment-Takes f.tracker c s.valid).0,
      le-weigh (uses a.nonce) f.guards i a at,
      s.single a.nonce,
    )

-- In every fleet that its steps reach from a first nonce within the word, the pending count is the number of
-- guards that are neither committed nor released.
pub pending_exact :
    {initial : ℕ} {f : Fleet}
    → initial < u64_mod
    → Reach initial f
    → f.tracker.pending_count ≡ weigh (λ r. unsettled r.state) f.guards
pending_exact h r = (Reach-IsSound h r).owing
