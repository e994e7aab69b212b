-- ===== src/Ledger/Records.antt =====
-- What a record keeps through the operations: its fees never fall, its hashes are never forgotten, and
-- its clock restarts only for a new attempt at a released nonce.
use fast_wallet.Base.{
  ℕ, ◌≤◌, ◌≡◌, ◌⊎◌, refl, sym, ◌∙◌, Bool, true, false, ◌||◌, not, ◌==◌, Option, none, some, arith,
  inl, inr, Bool-cases,
}
use fast_wallet.NonceSet.{contains, contains-insert}
use fast_wallet.OrderedMap.{
  lookup, alter, Ordered, lookup-alter, lookup-from_key, altered, alter-Ordered,
}
use Prim.Native.String.{String}
use fast_wallet.Ledger.{
  InflightNonceLedger, InflightNonceRecord, InflightNonceStatus, signed, released, merge_max,
  is_released, prune_old_records, resigned, updated, new_record, record_signed,
}
use fast_wallet.Ledger.Bounds.{
  Op, signs, accepts, sees, reaccepts, mines, releases, commits, consumes, apply, lookup-prune,
}

-- `none` stands for no fee, below every other.
abbrev pub LeFee : Option ℕ → Option ℕ → Type 0
LeFee none o = Unit {0}
LeFee (some a) none = ⊥
LeFee (some a) (some b) = a ≤ b

-- The record after an operation, from the one before.
pub record Evolves (now : ℕ) (r r' : InflightNonceRecord) : Type 0 where
  pub fee : LeFee r.max_fee_seen r'.max_fee_seen
  pub tip : LeFee r.max_priority_seen r'.max_priority_seen
  pub hashes : (h : ℕ) → (contains h r'.tx_hashes || not (contains h r.tx_hashes)) ≡ true
  pub clock :
      (r'.first_seen ≡ r.first_seen)
      ⊎ ((r.status ≡ released)
          × (r'.first_seen ≡ now)
          × (r'.status ≡ signed)
          × (r'.accepted_broadcasts ≡ 0))

LeFee-refl : (o : Option ℕ) → LeFee o o
LeFee-refl none = tt
LeFee-refl (some a) = omega arith

pub le-merge_max :
    (slot seen : Option ℕ) → LeFee slot (merge_max slot seen) × LeFee seen (merge_max slot seen)
unfolding merge_max
le-merge_max slot none = (LeFee-refl slot, tt)
le-merge_max none (some v) = (tt, omega arith)
le-merge_max (some a) (some v) = ground arith

or_not : (b : Bool) → (b || not b) ≡ true
or_not true = refl
or_not false = refl

same-Evolves : (now : ℕ) (r : InflightNonceRecord) → Evolves now r r
same-Evolves now r = record {
  fee = LeFee-refl r.max_fee_seen;
  tip = LeFee-refl r.max_priority_seen;
  hashes = λ h. or_not (contains h r.tx_hashes);
  clock = inl refl;
}

released_is : (s : InflightNonceStatus) → is_released s ≡ true → s ≡ released
released_is s h = ground arith

resigned-Evolves :
    (h now : ℕ) (fee tip : Option ℕ) (r : InflightNonceRecord)
    → Evolves now r (resigned h fee tip now r)
unfolding resigned
resigned-Evolves h now fee tip r = elim (Bool-cases (is_released r.status)) [
  | inl again ↦ rw again (record {
    fee = (le-merge_max r.max_fee_seen fee).0;
    tip = (le-merge_max r.max_priority_seen tip).0;
    hashes = λ j. ground (arith, contains-insert j h r.tx_hashes);
    clock = inr (released_is r.status again, refl, refl, refl);
  })
  | inr going ↦ rw going (record {
    fee = (le-merge_max r.max_fee_seen fee).0;
    tip = (le-merge_max r.max_priority_seen tip).0;
    hashes = λ j. ground (arith, contains-insert j h r.tx_hashes);
    clock = inl refl;
  })
]

updated-Evolves :
    (h now : ℕ) (s : InflightNonceStatus) (why : Option String) (r : InflightNonceRecord)
    → Evolves now r (updated h s why r)
unfolding updated
updated-Evolves h now s why r = record {
  fee = LeFee-refl r.max_fee_seen;
  tip = LeFee-refl r.max_priority_seen;
  hashes = λ j. ground (arith, contains-insert j h r.tx_hashes);
  clock = inl refl;
}

alter-Evolves :
    (n now k : ℕ) (change : InflightNonceRecord → InflightNonceRecord) (fresh : InflightNonceRecord)
    (l : InflightNonceLedger) (r r' : InflightNonceRecord)
    → ((q : InflightNonceRecord) → Evolves now q (change q))
    → Ordered 0 l
    → lookup k l ≡ some r
    → lookup k (alter n change fresh l) ≡ some r'
    → Evolves now r r'
alter-Evolves n now k change fresh l r r' c o h h' =
    let at = lookup-alter k n 0 change fresh l o in
    elim (Bool-cases (k == n)) [
      | inl this ↦ let e : r' ≡ change r = ground (arith, at) in rw e (c r)
      | inr other ↦ let e : r' ≡ r = ground (arith, at) in rw e (same-Evolves now r)
    ]

pruned-Evolves :
    (n now k : ℕ) (change : InflightNonceRecord → InflightNonceRecord) (fresh : InflightNonceRecord)
    (l : InflightNonceLedger) (r r' : InflightNonceRecord)
    → ((q : InflightNonceRecord) → Evolves now q (change q))
    → Ordered 0 l
    → lookup k l ≡ some r
    → lookup k (prune_old_records (alter n change fresh l)) ≡ some r'
    → Evolves now r r'
pruned-Evolves n now k change fresh l r r' c o h h' =
    elim (lookup-prune 0 k (alter n change fresh l)
      (alter-Ordered n 0 change fresh l (omega arith) o)) [
        | inl stays ↦ alter-Evolves n now k change fresh l r r' c o h (sym stays ∙ h')
        | inr (gone, _) ↦ cc
      ]

-- In an ordered ledger, through any operation a record's fees do not fall, no hash is lost, and the clock stands or, for a
-- released nonce that is signed again, restarts with the attempt.
pub apply-Evolves :
    (op : Op) (l : InflightNonceLedger) (now k : ℕ) (r r' : InflightNonceRecord)
    → Ordered 0 l
    → lookup k l ≡ some r
    → lookup k (apply op l now) ≡ some r'
    → Evolves now r r'
unfolding apply
apply-Evolves (signs n h fee tip) l now k r r' o e e' =
    pruned-Evolves n now k _ _ l r r' (resigned-Evolves h now fee tip) o e e'
apply-Evolves (accepts n h) l now k r r' o e e' =
    pruned-Evolves n now k _ _ l r r' (updated-Evolves h now _ none) o e e'
apply-Evolves (sees n h) l now k r r' o e e' =
    pruned-Evolves n now k _ _ l r r' (updated-Evolves h now _ none) o e e'
apply-Evolves (reaccepts n h) l now k r r' o e e' =
    pruned-Evolves n now k _ _ l r r' (updated-Evolves h now _ none) o e e'
apply-Evolves (mines n h) l now k r r' o e e' =
    pruned-Evolves n now k _ _ l r r' (updated-Evolves h now _ none) o e e'
apply-Evolves (releases n why) l now k r r' o e e' =
    alter-Evolves n now k _ _ l r r'
      (λ q. record {
        fee = LeFee-refl _;
        tip = LeFee-refl _;
        hashes = λ j. or_not _;
        clock = inl refl;
      })
      o e e'
apply-Evolves (commits n) l now k r r' o e e' =
    alter-Evolves n now k _ _ l r r'
      (λ q. record {
        fee = LeFee-refl _;
        tip = LeFee-refl _;
        hashes = λ j. or_not _;
        clock = inl refl;
      })
      o e e'
apply-Evolves (consumes n) l now k r r' o e e' =
    let same : r' ≡ r = ground (arith, lookup-from_key k n l) in rw same (same-Evolves now r)

resigned_fees :
    (h now : ℕ) (fee tip : Option ℕ) (r : InflightNonceRecord)
    → LeFee fee (resigned h fee tip now r).max_fee_seen
      × LeFee tip (resigned h fee tip now r).max_priority_seen
unfolding resigned
resigned_fees h now fee tip r =
    let of_fee = (le-merge_max r.max_fee_seen fee).1 in
    let of_tip = (le-merge_max r.max_priority_seen tip).1 in
    elim (Bool-cases (is_released r.status)) [
      | inl again ↦ rw again (of_fee, of_tip)
      | inr going ↦ rw going (of_fee, of_tip)
    ]

altered_fees :
    (h now n : ℕ) (fee tip : Option ℕ) (o : Option InflightNonceRecord)
    → LeFee fee (altered (resigned h fee tip now) (new_record n h fee tip now) o).max_fee_seen
      × LeFee tip
          (altered (resigned h fee tip now) (new_record n h fee tip now) o).max_priority_seen
altered_fees h now n fee tip none = unfold new_record in (LeFee-refl fee, LeFee-refl tip)
altered_fees h now n fee tip (some r) = resigned_fees h now fee tip r

-- In an ordered ledger, after a sign the record of the nonce, where pruning left it, has seen fees at least as high as the
-- signed transaction's.
pub record_signed_fees :
    (n h now : ℕ) (fee tip : Option ℕ) (l : InflightNonceLedger) (r : InflightNonceRecord)
    → Ordered 0 l
    → lookup n (record_signed l n h fee tip now) ≡ some r
    → LeFee fee r.max_fee_seen × LeFee tip r.max_priority_seen
unfolding record_signed
record_signed_fees n h now fee tip l r o e =
    let change = resigned h fee tip now in
    let fresh = new_record n h fee tip now in
    let whole = alter n change fresh l in
    elim (lookup-prune 0 n whole (alter-Ordered n 0 change fresh l (omega arith) o)) [
      | inl stays ↦
          let q : r ≡ altered change fresh (lookup n l) =
            ground (arith, stays, lookup-alter n n 0 change fresh l o) in
          rw q (altered_fees h now n fee tip (lookup n l))
      | inr (gone, _) ↦ cc
    ]
