-- ===== src/Ledger/Bounds.antt =====
-- The size of the ledger, and what pruning gives up.
use fast_wallet.Base.{
  ℕ, suc, ◌≤◌, ◌≡◌, ◌⊎◌, refl, Bool, true, false, [], ◌∷◌, length, ltb, ◌==◌, Option, none, arith,
  inl, inr, Bool-cases,
}
use fast_wallet.OrderedMap.{
  lookup, alter, Ordered, Ordered-weaken, alter-Ordered, from_key-Ordered, length-from_key,
  lookup_below,
}
use Prim.Native.String.{String}
use fast_wallet.Ledger.{
  InflightNonceLedger, InflightNonceRecord, max_tracked_nonces, prune_old_records, record_signed,
  update, mark_broadcast_accepted, mark_mempool_seen, mark_rebroadcast_accepted, mark_mined,
  mark_released, mark_committed, prune_consumed,
}

-- The operations of the ledger.
pub data Op : Type 0 where
  signs : ℕ → ℕ → Option ℕ → Option ℕ → Op
  accepts sees reaccepts mines : ℕ → ℕ → Op
  releases : ℕ → String → Op
  commits consumes : ℕ → Op

unfoldable pub apply : Op → InflightNonceLedger → ℕ → InflightNonceLedger
unfolding record_signed update mark_broadcast_accepted mark_mempool_seen mark_rebroadcast_accepted
    mark_mined mark_released mark_committed prune_consumed
apply (signs n h fee tip) l now = record_signed l n h fee tip now
apply (accepts n h) l now = mark_broadcast_accepted l n h now
apply (sees n h) l now = mark_mempool_seen l n h now
apply (reaccepts n h) l now = mark_rebroadcast_accepted l n h now
apply (mines n h) l now = mark_mined l n h now
apply (releases n why) l now = mark_released l n why now
apply (commits n) l now = mark_committed l n now
apply (consumes n) l now = prune_consumed l n

pub prune-Ordered :
    (lo : ℕ) (l : InflightNonceLedger) → Ordered lo l → Ordered lo (prune_old_records l)
unfolding prune_old_records
prune-Ordered lo [] o = tt
prune-Ordered lo ((k, r) ∷ l) o =
    ground (arith, prune-Ordered (suc k) l o.1, Ordered-weaken (suc k) lo (prune_old_records l))

pub length-prune : (l : InflightNonceLedger) → length (prune_old_records l) ≤ max_tracked_nonces
unfolding prune_old_records
length-prune [] = omega arith
length-prune ((k, r) ∷ l) = ground (arith, length-prune l)

pub prune_small :
    (l : InflightNonceLedger) → length l ≤ max_tracked_nonces → prune_old_records l ≡ l
unfolding prune_old_records
prune_small [] h = refl
prune_small ((k, r) ∷ l) h = ground arith

-- Pruning leaves an entry as it is or drops it, and it drops only from below: every entry that is
-- left has a higher nonce than one that is gone.
pub lookup-prune :
    (lo k : ℕ) (l : InflightNonceLedger)
    → Ordered lo l
    → (lookup k (prune_old_records l) ≡ lookup k l)
      ⊎ ((lookup k (prune_old_records l) ≡ none) × Ordered (suc k) (prune_old_records l))
unfolding prune_old_records lookup
lookup-prune lo k [] o = inl refl
lookup-prune lo k ((j, r) ∷ l) o = elim (Bool-cases (ltb max_tracked_nonces (suc (length l)))) [
  | inr small ↦ rw small (inl refl)
  | inl full ↦ rw full (elim (Bool-cases (k == j)) [
    | inr other ↦ rw other (lookup-prune (suc j) k l o.1)
    | inl this ↦
        let kept = prune-Ordered (suc j) l o.1 in
        inr (
          lookup_below k (suc j) (prune_old_records l) kept (ground arith),
          Ordered-weaken (suc j) (suc k) (prune_old_records l) (ground arith) kept,
        )
  ])
]

-- Every operation keeps the ledger ordered by nonce, each nonce once.
pub apply-Ordered :
    (op : Op) (l : InflightNonceLedger) (now : ℕ) → Ordered 0 l → Ordered 0 (apply op l now)
unfolding apply
apply-Ordered (signs n h fee tip) l now o =
    prune-Ordered 0 _ (alter-Ordered n 0 _ _ l (omega arith) o)
apply-Ordered (accepts n h) l now o = prune-Ordered 0 _ (alter-Ordered n 0 _ _ l (omega arith) o)
apply-Ordered (sees n h) l now o = prune-Ordered 0 _ (alter-Ordered n 0 _ _ l (omega arith) o)
apply-Ordered (reaccepts n h) l now o = prune-Ordered 0 _ (alter-Ordered n 0 _ _ l (omega arith) o)
apply-Ordered (mines n h) l now o = prune-Ordered 0 _ (alter-Ordered n 0 _ _ l (omega arith) o)
apply-Ordered (releases n why) l now o = alter-Ordered n 0 _ _ l (omega arith) o
apply-Ordered (commits n) l now o = alter-Ordered n 0 _ _ l (omega arith) o
apply-Ordered (consumes n) l now o = from_key-Ordered n 0 l o

-- The operations that may enter a nonce and do not prune.
abbrev pub unpruned : Op → Bool
unpruned (releases n why) = true
unpruned (commits n) = true
unpruned _ = false

-- Within the limit, an operation that prunes or only removes ends within the limit.
pub length-apply :
    (op : Op) (l : InflightNonceLedger) (now : ℕ)
    → unpruned op ≡ false
    → length l ≤ max_tracked_nonces
    → length (apply op l now) ≤ max_tracked_nonces
unfolding apply
length-apply (signs n h fee tip) l now e b = length-prune _
length-apply (accepts n h) l now e b = length-prune _
length-apply (sees n h) l now e b = length-prune _
length-apply (reaccepts n h) l now e b = length-prune _
length-apply (mines n h) l now e b = length-prune _
length-apply (releases n why) l now e b = cc
length-apply (commits n) l now e b = cc
length-apply (consumes n) l now e b = omega (arith, length-from_key {0} n l)

length-alter_fresh :
    (n lo : ℕ) (change : InflightNonceRecord → InflightNonceRecord) (fresh : InflightNonceRecord)
    (l : InflightNonceLedger)
    → Ordered lo l
    → lookup n l ≡ none
    → length (alter n change fresh l) ≡ suc (length l)
unfolding alter lookup
length-alter_fresh n lo change fresh [] o h = refl
length-alter_fresh n lo change fresh ((k, r) ∷ l) o h =
    ground (arith, length-alter_fresh n (suc k) change fresh l o.1)

-- A release or a commit of a nonce that an ordered ledger does not hold adds an entry, whatever the size: the
-- limit does not bind there.
pub length-mark_unpruned :
    (n : ℕ) (why : String) (l : InflightNonceLedger) (now : ℕ)
    → Ordered 0 l
    → lookup n l ≡ none
    → (length (mark_released l n why now) ≡ suc (length l))
      × (length (mark_committed l n now) ≡ suc (length l))
unfolding mark_released mark_committed
length-mark_unpruned n why l now o h =
    (length-alter_fresh n 0 _ _ l o h, length-alter_fresh n 0 _ _ l o h)
