-- ===== src/Fees/Bump.antt =====
-- What a bump guarantees, and where saturation takes it away.
use fast_wallet.Base.{ℕ, ◌+◌, ◌*◌, ◌≤◌, ◌<◌, Option, unwrap_or, arith, u256_mod, max}
use native.Mathlib.Nat.{le_trans}
use fast_wallet.Fees.{bump_u256, compute_cancel_fees}

max_bounds : (a b : ℕ) → (a ≤ max a b) × (b ≤ max a b)
max_bounds a b = ground arith

scaled : (a b : ℕ) → a ≤ b → a * 10_000 ≤ b * 10_000
scaled a b h = omega arith

-- Within the word, a bump is the least integer that is at least `v * (1 + bps / 10000)`.
pub bump_exact :
    (v bps : ℕ)
    → v * (10_000 + bps) + 9999 < u256_mod
    → (v * (10_000 + bps) ≤ bump_u256 v bps * 10_000)
      × (bump_u256 v bps * 10_000 < v * (10_000 + bps) + 10_000)
unfolding bump_u256
bump_exact v bps h = ground arith

-- So it exceeds a fee other than zero, for every bump other than zero.
pub bump_grows :
    (v bps : ℕ) → v * (10_000 + bps) + 9999 < u256_mod → 0 < v → 0 < bps → v < bump_u256 v bps
bump_grows v bps h p q = grind (arith, bump_exact v bps h)

-- A fee so large that ten thousand times it leaves the word is not raised: its bump saturates.
pub bump_saturated : (v bps : ℕ) → u256_mod ≤ v * 10_000 → bump_u256 v bps ≤ v
unfolding bump_u256
bump_saturated v bps h = ground arith

-- Bumping is monotone, saturation included.
pub bump_mono : (v w bps : ℕ) → v ≤ w → bump_u256 v bps ≤ bump_u256 w bps
unfolding bump_u256
bump_mono v w bps h =
    let product : v * (10_000 + bps) ≤ w * (10_000 + bps) = grind arith in ground (arith, product)

raised :
    (x basis bps : ℕ)
    → x ≤ basis
    → basis * (10_000 + bps) + 9999 < u256_mod
    → x * (10_000 + bps) ≤ bump_u256 basis bps * 10_000
raised x basis bps h fits =
    let product : x * (10_000 + bps) ≤ basis * (10_000 + bps) = grind arith in
    omega (arith, product, bump_exact basis bps fits)

-- Within the word, the fees of a cancel exceed by the bump both the network's prices and the stranded
-- transaction's own fees, and the fee cap covers the tip.
pub cancel_outbids :
    (network_tip network_gas bps : ℕ) (stranded_tip stranded_max_fee : Option ℕ)
    → max network_tip (unwrap_or stranded_tip 0) * (10_000 + bps) + 9999 < u256_mod
    → max network_gas (unwrap_or stranded_max_fee 0) * (10_000 + bps) + 9999 < u256_mod
    → let fees = compute_cancel_fees network_tip network_gas stranded_tip stranded_max_fee bps in
      (network_tip * (10_000 + bps) ≤ fees.0 * 10_000)
      × (unwrap_or stranded_tip 0 * (10_000 + bps) ≤ fees.0 * 10_000)
      × (network_gas * (10_000 + bps) ≤ fees.1 * 10_000)
      × (unwrap_or stranded_max_fee 0 * (10_000 + bps) ≤ fees.1 * 10_000)
      × (fees.0 ≤ fees.1)
unfolding compute_cancel_fees
cancel_outbids network_tip network_gas bps stranded_tip stranded_max_fee fits_tip fits_gas =
    let tip_basis = max network_tip (unwrap_or stranded_tip 0) in
    let gas_basis = max network_gas (unwrap_or stranded_max_fee 0) in
    let tip = bump_u256 tip_basis bps in
    let gas = bump_u256 gas_basis bps in
    let (gas_le, tip_le) = max_bounds gas tip in
    let covers = λ (x : ℕ) (p : x ≤ gas_basis).
      le_trans (raised x gas_basis bps p fits_gas) (scaled gas (max gas tip) gas_le) in
    (
      raised network_tip tip_basis bps (max_bounds network_tip _).0 fits_tip,
      raised (unwrap_or stranded_tip 0) tip_basis bps (max_bounds network_tip _).1 fits_tip,
      covers network_gas (max_bounds network_gas _).0,
      covers (unwrap_or stranded_max_fee 0) (max_bounds network_gas _).1,
      tip_le,
    )
