-- ===== src/Base/Words.antt =====
-- Unsigned machine words: Rust's wrapping and saturating operations, written out over ℕ.
use Prim.Native.Nat.{ℕ, ◌+◌, ◌-◌, ◌*◌, ◌%◌, ◌^◌}
use fast_wallet.Base.Tests.{ltb, if◌then◌else◌}

abbrev pub u64_mod : ℕ
u64_mod = 2 ^ 64

abbrev pub u32_mod : ℕ
u32_mod = 2 ^ 32

-- `AtomicU64::fetch_add` and `fetch_sub` wrap around.
abbrev pub wrapping_add : ℕ → ℕ → ℕ
wrapping_add a b = (a + b) % u64_mod

abbrev pub wrapping_sub : ℕ → ℕ → ℕ
wrapping_sub a b = (a + u64_mod - b) % u64_mod

-- `U256`, with its saturating operations.
abbrev pub u256_mod : ℕ
u256_mod = 2 ^ 256

abbrev pub saturate : ℕ → ℕ
saturate n = if ltb n u256_mod then n else u256_mod - 1

abbrev pub saturating_mul : ℕ → ℕ → ℕ
saturating_mul a b = saturate (a * b)

abbrev pub saturating_add : ℕ → ℕ → ℕ
saturating_add a b = saturate (a + b)

-- `Ord::max`.
abbrev pub max : ℕ → ℕ → ℕ
max a b = if ltb a b then b else a
