-- ===== src/NonceSet/Defs.antt =====
-- The set operations that the tracker and the ledger use.
use fast_wallet.Base.{
  ℕ, suc, ◌≤◌, ◌<◌, Bool, false, ◌||◌, List, [], ◌∷◌, ltb, leb, ◌==◌, if◌then◌else◌, Option, none,
  some,
}

unfoldable pub contains : ℕ → List ℕ → Bool
contains a [] = false
contains a (x ∷ xs) = a == x || contains a xs

-- `first().copied()`.
abbrev pub first : List ℕ → Option ℕ
first [] = none
first (x ∷ xs) = some x

unfoldable pub insert : ℕ → List ℕ → List ℕ
insert a [] = a ∷ []
insert a (x ∷ xs) = if ltb a x then a ∷ x ∷ xs else if a == x then x ∷ xs else x ∷ insert a xs

unfoldable pub remove : ℕ → List ℕ → List ℕ
remove a [] = []
remove a (x ∷ xs) = if a == x then xs else x ∷ remove a xs

-- `retain(|n| *n >= bound)`.
unfoldable pub retain_from : ℕ → List ℕ → List ℕ
retain_from bound [] = []
retain_from bound (x ∷ xs) = if leb bound x then x ∷ retain_from bound xs else retain_from bound xs

-- Ascending without repetition, every element in `lo .. hi - 1` (the last one excluded).
abbrev pub Between : ℕ → ℕ → List ℕ → Type 0
Between lo hi [] = Unit {0}
Between lo hi (x ∷ xs) = (lo ≤ x) × (suc x < hi) × Between (suc x) hi xs
