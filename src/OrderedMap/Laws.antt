-- ===== src/OrderedMap/Laws.antt =====
-- Lookup after each operation, and the order that the operations keep.
use fast_wallet.Base.{
  ℕ, suc, ◌≤◌, ◌<◌, ◌≡◌, refl, Bool, false, [], ◌∷◌, leb, ◌==◌, if◌then◌else◌, none, some, arith,
  length,
}
use fast_wallet.OrderedMap.Defs.{Entries, lookup, alter, from_key, find, Ordered, altered}

module _ {ℓ} {V : Type ℓ} where
  pub Ordered-weaken : (lo lo' : ℕ) (m : Entries V) → lo' ≤ lo → Ordered lo m → Ordered lo' m
  Ordered-weaken lo lo' [] h o = tt
  Ordered-weaken lo lo' ((k, v) ∷ m) h o = (omega arith, o.1)

  pub lookup_below : (k lo : ℕ) (m : Entries V) → Ordered lo m → k < lo → lookup k m ≡ none
  unfolding lookup
  lookup_below k lo [] o h = refl
  lookup_below k lo ((j, v) ∷ m) o h = ground (arith, lookup_below k (suc j) m o.1)

  pub lookup-alter :
      (j k lo : ℕ) (change : V → V) (fresh : V) (m : Entries V)
      → Ordered lo m
      → lookup j (alter k change fresh m)
        ≡ (if j == k then some (altered change fresh (lookup k m)) else lookup j m)
  unfolding lookup alter
  lookup-alter j k lo change fresh [] o = ground arith
  lookup-alter j k lo change fresh ((i, v) ∷ m) o =
      ground (arith, lookup-alter j k (suc i) change fresh m o.1, lookup_below k (suc i) m o.1)

  pub alter-Ordered :
      (k lo : ℕ) (change : V → V) (fresh : V) (m : Entries V)
      → lo ≤ k
      → Ordered lo m
      → Ordered lo (alter k change fresh m)
  unfolding alter
  alter-Ordered k lo change fresh [] h o = (h, tt)
  alter-Ordered k lo change fresh ((i, v) ∷ m) h o =
      ground (arith, alter-Ordered k (suc i) change fresh m)

  pub lookup-from_key :
      (k bound : ℕ) (m : Entries V)
      → lookup k (from_key bound m) ≡ (if leb bound k then lookup k m else none)
  unfolding lookup from_key
  lookup-from_key k bound [] = ground arith
  lookup-from_key k bound ((j, v) ∷ m) = ground (arith, lookup-from_key k bound m)

  pub from_key-Ordered :
      (bound lo : ℕ) (m : Entries V) → Ordered lo m → Ordered lo (from_key bound m)
  unfolding from_key
  from_key-Ordered bound lo [] o = tt
  from_key-Ordered bound lo ((j, v) ∷ m) o =
      ground
        (arith, from_key-Ordered bound (suc j) m o.1, Ordered-weaken (suc j) lo (from_key bound m))

  pub length-from_key : (bound : ℕ) (m : Entries V) → length (from_key bound m) ≤ length m
  unfolding from_key
  length-from_key bound [] = omega arith
  length-from_key bound ((j, v) ∷ m) = ground (arith, length-from_key bound m)

  pub length-alter :
      (k : ℕ) (change : V → V) (fresh : V) (m : Entries V)
      → length (alter k change fresh m) ≤ suc (length m)
  unfolding alter
  length-alter k change fresh [] = omega arith
  length-alter k change fresh ((j, v) ∷ m) = ground (arith, length-alter k change fresh m)

  -- A search fails exactly when every entry fails the test.
  pub find-none :
      (test : V → Bool) (m : Entries V) (k : ℕ) (v : V)
      → find test m ≡ none
      → lookup k m ≡ some v
      → test v ≡ false
  unfolding find lookup
  find-none test [] k v h e = cc
  find-none test ((j, w) ∷ m) k v h e = ground (arith, find-none test m k v)
