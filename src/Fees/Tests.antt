-- ===== src/Fees/Tests.antt =====
-- Bumps and cancel fees at the values of the source's own tests, and the theorems at them.
use fast_wallet.Base.{◌*◌, ◌/◌, ◌≤◌, ◌<◌, ◌≡◌, refl, some, none, arith, u256_mod}
use fast_wallet.Fees.{bump_u256, compute_cancel_fees, rbf_min_bump_bps}
use fast_wallet.Fees.Bump.{bump_grows, bump_saturated, cancel_outbids}

bump_run : (bump_u256 1 1250 ≡ 2) × (bump_u256 1000 1250 ≡ 1125) × (bump_u256 0 1250 ≡ 0)
unfolding bump_u256
bump_run = (refl, refl, refl)

cancel_run : compute_cancel_fees 100 1000 (some 400) none rbf_min_bump_bps ≡ (450, 1125)
unfolding compute_cancel_fees bump_u256
cancel_run = refl

bump_grows_example : 1 < bump_u256 1 1
bump_grows_example = bump_grows 1 1 (omega arith) (omega arith) (omega arith)

bump_saturated_case : bump_u256 (u256_mod / 5000) 1250 ≤ u256_mod / 5000
bump_saturated_case = bump_saturated (u256_mod / 5000) 1250 (omega arith)

cancel_outbids_example :
    let fees = compute_cancel_fees 100 1000 (some 400) none 1250 in
    (100 * 11_250 ≤ fees.0 * 10_000)
    × (400 * 11_250 ≤ fees.0 * 10_000)
    × (1000 * 11_250 ≤ fees.1 * 10_000)
    × (0 * 11_250 ≤ fees.1 * 10_000)
    × (fees.0 ≤ fees.1)
cancel_outbids_example = cancel_outbids 100 1000 1250 (some 400) none (omega arith) (omega arith)
