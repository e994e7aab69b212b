-- ===== src/Ledger/Lowest.antt =====
-- The search for the lowest unresolved nonce, and the unresolved count.
use fast_wallet.Base.{
  ℕ, suc, ◌≤◌, ◌<◌, ◌≡◌, ◌↔◌, refl, true, false, [], ◌∷◌, Option, none, some, arith,
}
use fast_wallet.OrderedMap.{lookup, from_key, find, Ordered, alter, lookup_below}
use fast_wallet.Ledger.{
  InflightNonceLedger, InflightNonceRecord, InflightNonceSnapshot, unresolved, snapshot,
  snapshot_at, lowest_unresolved_at_or_above, unresolved_count, prune_consumed, prune_old_records,
  resigned, updated, is_unresolved,
}
use fast_wallet.Ledger.Bounds.{
  Op, signs, accepts, sees, reaccepts, mines, releases, commits, consumes, apply,
}

-- Each record stands under its own nonce.
abbrev pub Keyed : InflightNonceLedger → Type 0
Keyed [] = Unit {0}
Keyed ((k, r) ∷ l) = (r.nonce ≡ k) × Keyed l

alter-Keyed :
    (k : ℕ) (change : InflightNonceRecord → InflightNonceRecord) (fresh : InflightNonceRecord)
    (l : InflightNonceLedger)
    → fresh.nonce ≡ k
    → ((r : InflightNonceRecord) → (change r).nonce ≡ r.nonce)
    → Keyed l
    → Keyed (alter k change fresh l)
unfolding alter
alter-Keyed k change fresh [] f c h = (f, tt)
alter-Keyed k change fresh ((j, r) ∷ l) f c h =
    ground (arith, alter-Keyed k change fresh l f c h.1, c r)

prune-Keyed : (l : InflightNonceLedger) → Keyed l → Keyed (prune_old_records l)
unfolding prune_old_records
prune-Keyed [] h = tt
prune-Keyed ((k, r) ∷ l) h = ground (arith, prune-Keyed l h.1)

from_key-Keyed : (c : ℕ) (l : InflightNonceLedger) → Keyed l → Keyed (from_key c l)
unfolding from_key
from_key-Keyed c [] h = tt
from_key-Keyed c ((k, r) ∷ l) h = ground (arith, from_key-Keyed c l h.1)

-- Every operation keeps each record under its own nonce.
pub apply-Keyed : (op : Op) (l : InflightNonceLedger) (now : ℕ) → Keyed l → Keyed (apply op l now)
unfolding apply resigned updated
apply-Keyed (signs n h fee tip) l now k =
    prune-Keyed _ (alter-Keyed n _ _ l refl (λ r. ground arith) k)
apply-Keyed (accepts n h) l now k = prune-Keyed _ (alter-Keyed n _ _ l refl (λ r. refl) k)
apply-Keyed (sees n h) l now k = prune-Keyed _ (alter-Keyed n _ _ l refl (λ r. refl) k)
apply-Keyed (reaccepts n h) l now k = prune-Keyed _ (alter-Keyed n _ _ l refl (λ r. refl) k)
apply-Keyed (mines n h) l now k = prune-Keyed _ (alter-Keyed n _ _ l refl (λ r. refl) k)
apply-Keyed (releases n why) l now k = alter-Keyed n _ _ l refl (λ r. refl) k
apply-Keyed (commits n) l now k = alter-Keyed n _ _ l refl (λ r. refl) k
apply-Keyed (consumes n) l now k = from_key-Keyed n l k

find_sound :
    (lo c : ℕ) (l : InflightNonceLedger) (r : InflightNonceRecord)
    → Ordered lo l
    → Keyed l
    → find unresolved (from_key c l) ≡ some r
    → (lo ≤ r.nonce) × (c ≤ r.nonce) × (lookup r.nonce l ≡ some r) × (unresolved r ≡ true)
unfolding find from_key lookup
find_sound lo c [] r o k h = cc
find_sound lo c ((j, q) ∷ l) r o k h = ground (arith, find_sound (suc j) c l r o.1 k.1)

find_least :
    (lo c j : ℕ) (l : InflightNonceLedger) (r q : InflightNonceRecord)
    → Ordered lo l
    → Keyed l
    → find unresolved (from_key c l) ≡ some r
    → lookup j l ≡ some q
    → c ≤ j
    → j < r.nonce
    → unresolved q ≡ false
unfolding find from_key lookup
find_least lo c j [] r q o k h e p d = cc
find_least lo c j ((i, x) ∷ l) r q o k h e p d =
    ground (arith, find_least (suc i) c j l r q o.1 k.1, lookup_below j (suc i) l o.1)

find_missing :
    (c j : ℕ) (l : InflightNonceLedger) (q : InflightNonceRecord)
    → find unresolved (from_key c l) ≡ none
    → lookup j l ≡ some q
    → c ≤ j
    → unresolved q ≡ false
unfolding find from_key lookup
find_missing c j [] q h e p = cc
find_missing c j ((i, x) ∷ l) q h e p = ground (arith, find_missing c j l q)

snapshot_at-some :
    (o : Option InflightNonceRecord) (now : ℕ) (s : InflightNonceSnapshot)
    → snapshot_at now o ≡ some s
    → (r : InflightNonceRecord) × (o ≡ some r) × (s ≡ snapshot r now)
snapshot_at-some none now s h = cc
snapshot_at-some (some r) now s h = (r, refl, cc)

-- In an ordered ledger whose records stand under their own nonces, the snapshot found is that of an unresolved record, at or above the chain's nonce.
pub lowest_sound :
    (l : InflightNonceLedger) (c now : ℕ) (s : InflightNonceSnapshot)
    → Ordered 0 l
    → Keyed l
    → lowest_unresolved_at_or_above l c now ≡ some s
    → (r : InflightNonceRecord) × (lookup s.nonce l ≡ some r)
      × (s ≡ snapshot r now)
      × (c ≤ s.nonce)
      × (is_unresolved s.status ≡ true)
unfolding lowest_unresolved_at_or_above snapshot
lowest_sound l c now s o k h =
    let (r, found, e) = snapshot_at-some (find unresolved (from_key c l)) now s h in
    let facts = find_sound 0 c l r o k found in (r, rw e facts.2, e, rw e facts.1, rw e facts.3)

-- In an ordered ledger whose records stand under their own nonces, no unresolved record stands between the chain's nonce and the one found.
pub lowest_least :
    (l : InflightNonceLedger) (c now j : ℕ) (s : InflightNonceSnapshot) (q : InflightNonceRecord)
    → Ordered 0 l
    → Keyed l
    → lowest_unresolved_at_or_above l c now ≡ some s
    → lookup j l ≡ some q
    → c ≤ j
    → j < s.nonce
    → unresolved q ≡ false
unfolding lowest_unresolved_at_or_above snapshot
lowest_least l c now j s q o k h e p d =
    let (r, found, e') = snapshot_at-some (find unresolved (from_key c l)) now s h in
    find_least 0 c j l r q o k found e p (rw e' at d)

-- Nothing is found only if nothing at or above the chain's nonce is unresolved.
pub lowest_missing :
    (l : InflightNonceLedger) (c now j : ℕ) (q : InflightNonceRecord)
    → lowest_unresolved_at_or_above l c now ≡ none
    → lookup j l ≡ some q
    → c ≤ j
    → unresolved q ≡ false
unfolding lowest_unresolved_at_or_above
lowest_missing l c now j q h e p = find_missing c j l q (ground arith) e p

count_lowest :
    (c : ℕ) (l : InflightNonceLedger)
    → (unresolved_count (from_key c l) ≡ 0) ↔ (find unresolved (from_key c l) ≡ none)
unfolding unresolved_count from_key find
count_lowest c [] = (λ _. refl, λ _. refl)
count_lowest c ((k, r) ∷ l) = ground (arith, count_lowest c l)

from_key_twice : (c : ℕ) (l : InflightNonceLedger) → from_key c (from_key c l) ≡ from_key c l
unfolding from_key
from_key_twice c [] = refl
from_key_twice c ((k, r) ∷ l) = ground (arith, from_key_twice c l)

-- Once what the chain has consumed is pruned, the unresolved count is zero exactly when the search
-- from the chain's nonce finds nothing.
pub count-lowest :
    (l : InflightNonceLedger) (c now : ℕ)
    → (unresolved_count (prune_consumed l c) ≡ 0)
      ↔ (lowest_unresolved_at_or_above (prune_consumed l c) c now ≡ none)
unfolding prune_consumed lowest_unresolved_at_or_above
count-lowest l c now = ground (arith, count_lowest c l, from_key_twice c l)
