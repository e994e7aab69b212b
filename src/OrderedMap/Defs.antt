-- ===== src/OrderedMap/Defs.antt =====
-- The map operations that the ledger uses.
use fast_wallet.Base.{
  ℕ, suc, ◌≤◌, Bool, List, [], ◌∷◌, ltb, leb, ◌==◌, if◌then◌else◌, Option, none, some,
}

abbrev pub Entries {ℓ} : Type ℓ → Type ℓ
Entries V = List (ℕ × V)

module _ {ℓ} {V : Type ℓ} where
  unfoldable pub lookup : ℕ → Entries V → Option V
  lookup k [] = none
  lookup k ((j, v) ∷ m) = if k == j then some v else lookup k m

  -- `entry(k).and_modify(change).or_insert_with(fresh)`.
  unfoldable pub alter : ℕ → (V → V) → V → Entries V → Entries V
  alter k change fresh [] = (k, fresh) ∷ []
  alter k change fresh ((j, v) ∷ m) =
      if ltb k j
      then (k, fresh) ∷ (j, v) ∷ m
      else if k == j
      then (j, change v) ∷ m
      else (j, v) ∷ alter k change fresh m

  -- `retain(|key, _| *key >= bound)`, and `range(bound..)`.
  unfoldable pub from_key : ℕ → Entries V → Entries V
  from_key bound [] = []
  from_key bound ((j, v) ∷ m) = if leb bound j then (j, v) ∷ from_key bound m else from_key bound m

  -- `values().find(test)`.
  unfoldable pub find : (V → Bool) → Entries V → Option V
  find test [] = none
  find test ((j, v) ∷ m) = if test v then some v else find test m

  -- Keys ascend without repetition from `lo` on.
  abbrev pub Ordered : ℕ → Entries V → Type 0
  Ordered lo [] = Unit {0}
  Ordered lo ((k, v) ∷ m) = (lo ≤ k) × Ordered (suc k) m

  -- What `alter` leaves under its key.
  abbrev pub altered : (V → V) → V → Option V → V
  altered change fresh none = fresh
  altered change fresh (some v) = change v
