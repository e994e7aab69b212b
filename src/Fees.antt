-- ===== src/Fees.antt =====
-- Fee arithmetic: `bump_u256` of src/transaction.rs and `compute_cancel_fees` of src/wallet.rs.
pub mod Bump
mod Tests
use fast_wallet.Base.{ℕ, ◌+◌, ◌-◌, ◌*◌, ◌/◌, Option, unwrap_or, saturating_mul, saturating_add, max}

abbrev pub rbf_min_bump_bps : ℕ
rbf_min_bump_bps = 1250

unfoldable pub bump_u256 : ℕ → ℕ → ℕ
bump_u256 v bump_bps =
    let denom : ℕ = 10_000 in
    let num = saturating_mul v (10_000 + bump_bps) in saturating_add num (denom - 1) / denom

unfoldable pub compute_cancel_fees : ℕ → ℕ → Option ℕ → Option ℕ → ℕ → ℕ × ℕ
compute_cancel_fees network_tip network_gas stranded_tip stranded_max_fee bump_bps =
    let tip_basis = max network_tip (unwrap_or stranded_tip 0) in
    let gas_basis = max network_gas (unwrap_or stranded_max_fee 0) in
    let tip = bump_u256 tip_basis bump_bps in (tip, max (bump_u256 gas_basis bump_bps) tip)
