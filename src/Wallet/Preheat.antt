-- ===== src/Wallet/Preheat.antt =====
-- `PreheatedContext` of src/wallet.rs: a nonce and gas prices taken ahead of a transaction. The tracker that
-- its guard shares is passed along; a guard that is taken out of the context is dropped behind its last call.
use fast_wallet.Base.{
  ℕ, ◌+◌, ◌-◌, ◌%◌, u256_mod, Bool, true, false, not, ◌&&◌, ltb, Option, none, some, if◌then◌else◌,
  u64_mod,
}
use fast_wallet.Errors.{nonce_error, WalletResult, ok, err}
use fast_wallet.Errors.Text.{codes}
use fast_wallet.Tracker.{NonceTracker}
use fast_wallet.Reservation
use fast_wallet.Reservation.{ReservedNonce, Outcome}

pub record PreheatedContext : Type 0 where
  pub nonce : ℕ
  pub gas_price : Option ℕ
  pub priority_fee : Option ℕ
  pub max_fee : Option ℕ
  pub preheated_at : ℕ
  pub used : Bool
  pub reservation : Option ReservedNonce

unfoldable pub new_context : ReservedNonce → ℕ → PreheatedContext
new_context reservation now = record {
  nonce = reservation.nonce;
  gas_price = none;
  priority_fee = none;
  max_fee = none;
  preheated_at = now;
  used = false;
  reservation = some reservation;
}

-- `u64::MAX` stands for a nonce that is not reserved yet.
unfoldable pub new_warmup_only : ℕ → PreheatedContext
new_warmup_only now = record {
  nonce = u64_mod - 1;
  gas_price = none;
  priority_fee = none;
  max_fee = none;
  preheated_at = now;
  used = false;
  reservation = none;
}

unfoldable pub context_is_valid : PreheatedContext → ℕ → ℕ → Bool
context_is_valid ctx max_age now = not ctx.used && ltb (now - ctx.preheated_at) max_age

-- The compare-exchange: the flag says whether it was the first.
unfoldable pub mark_used : PreheatedContext → PreheatedContext × Bool
mark_used ctx = if ctx.used then (ctx, false) else (record ctx { used = true }, true)

abbrev finalized : WalletResult {0} Unit
finalized = err (nonce_error (codes "PreheatedContext reservation already finalized"))

unfoldable pub mark_broadcasting :
    NonceTracker → PreheatedContext → PreheatedContext × WalletResult {0} Unit
unfolding Reservation.mark_broadcasting
mark_broadcasting t ctx = elim ctx.reservation [
  | none ↦ (ctx, finalized)
  | some r ↦
      let (t', r', marked) = Reservation.mark_broadcasting t r in
      (record ctx { reservation = some r' }, if marked then ok tt else finalized)
]

-- A call on the guard, which is taken out of its context and then dropped.
unfoldable pub take_and :
    (NonceTracker → ReservedNonce → Outcome)
    → NonceTracker
    → PreheatedContext
    → NonceTracker × PreheatedContext × Bool
unfolding Reservation.drop
take_and call t ctx = elim ctx.reservation [
  | none ↦ (t, record ctx { used = true }, false)
  | some r ↦
      let (t', r', told) = call t r in
      ((Reservation.drop t' r').0, record ctx { used = true; reservation = none }, told)
]

unfoldable pub commit_reservation :
    NonceTracker → PreheatedContext → NonceTracker × PreheatedContext
unfolding take_and Reservation.commit
commit_reservation t ctx = let (t', ctx', told) = take_and Reservation.commit t ctx in (t', ctx')

unfoldable pub release_reservation :
    NonceTracker → PreheatedContext → NonceTracker × PreheatedContext × Bool
unfolding take_and Reservation.release
release_reservation = take_and Reservation.release

unfoldable pub release_rejected_broadcast :
    NonceTracker → PreheatedContext → NonceTracker × PreheatedContext × Bool
unfolding take_and Reservation.release_rejected_broadcast
release_rejected_broadcast = take_and Reservation.release_rejected_broadcast

unfoldable pub reserved_nonce : PreheatedContext → Option ℕ
reserved_nonce ctx = elim ctx.reservation [ none ↦ none | some r ↦ some r.nonce ]

-- A context that goes out of scope drops the guard in it.
unfoldable pub drop_context : NonceTracker → PreheatedContext → NonceTracker
unfolding Reservation.drop
drop_context t ctx = elim ctx.reservation [ none ↦ t | some r ↦ (Reservation.drop t r).0 ]

-- The gas prices of a preheat: what was fetched, and `base + base + priority` if both were, of which `U256`'s
-- sum wraps around.
abbrev max_fee_of : Option ℕ → Option ℕ → Option ℕ
max_fee_of (some base) (some priority) = some ((base + base + priority) % u256_mod)
max_fee_of _ _ = none

unfoldable pub with_gas : PreheatedContext → Option ℕ → Option ℕ → PreheatedContext
with_gas ctx gas_price priority_fee = record ctx {
  gas_price = gas_price;
  priority_fee = priority_fee;
  max_fee = max_fee_of gas_price priority_fee;
}
