-- ===== src/Wallet/Nonces.antt =====
-- The nonces that `sign` and the signing of a batch use.
use mathlib.Core.Path.{subst}
use fast_wallet.Base.{
  ℕ, zero, suc, ◌+◌, ◌≤◌, ◌<◌, ◌≡◌, refl, sym, ap, ◌∙◌, true, ◌&&◌, not, List, [], ◌∷◌, any, length,
  ltb, ◌==◌, ==_iff, Bool-cases, inl, inr, arith, u64_mod,
}
use fast_wallet.NonceSet.{contains}
use fast_wallet.Errors.{Message, BroadcastFailure, WalletResult, ok, err}
use fast_wallet.Errors.Classify.{SyncBlock}
use fast_wallet.Transaction.{Bytes, TypedTransaction, chain_id, nonce}
use fast_wallet.Transaction.Identity.{intent, Agrees, build-Agrees}
use fast_wallet.Transaction.Request.{TransactionRequest, build}
use fast_wallet.Transaction.Sign.{Transaction, build_and_sign, sign_typed, Crypto}
use fast_wallet.Transaction.Sign as Signing
use fast_wallet.Tracker
use fast_wallet.Tracker.{NonceTracker}
use fast_wallet.Tracker.Invariant.{IsValid, get_and_increment-IsValid, release-IsValid}
use fast_wallet.Tracker.Availability.{available, Takes, get_and_increment-Takes}
use fast_wallet.Rpc.Verdicts.{WalletResult-cases, ok_same, err_ok}
use fast_wallet.Wallet.{FastWallet, Setting}
use fast_wallet.Wallet.Send.{completed, record_broadcast_candidate, record_signed_or_release, sign}
use fast_wallet.Wallet.Optimistic.{sign_all}
use fast_wallet.Wallet.Freed.{sign_failed_restores}

current-collapse_from : (c : ℕ) (t : NonceTracker) → (Tracker.collapse_from c t).current ≤ c
unfolding Tracker.collapse_from
current-collapse_from zero t = omega arith
current-collapse_from (suc p) t = elim (Bool-cases (ltb p t.synced_nonce)) [
  | inl stop ↦ rw stop (omega arith)
  | inr go ↦ rw go (elim (Bool-cases (contains p t.gaps)) [
    | inl top ↦ rw top (omega (arith, current-collapse_from p _))
    | inr free ↦ rw free (omega arith)
  ])
]

current-recycle_nonce : (t : NonceTracker) (n : ℕ) → (Tracker.recycle_nonce t n).current ≤ t.current
unfolding Tracker.recycle_nonce Tracker.collapse_top_gaps Tracker.insert_gap
current-recycle_nonce t n = ground (arith, current-collapse_from n (record t { current = n }))

current-release : (t : NonceTracker) (n : ℕ) → (Tracker.release t n).current ≤ t.current
unfolding Tracker.release Tracker.decrement_pending
current-release t n = elim (Bool-cases (ltb 0 t.pending_count)) [
  | inl some_pending ↦ rw some_pending (current-recycle_nonce _ n)
  | inr none_pending ↦ rw none_pending (current-recycle_nonce t n)
]

current-pop_gap :
    (gs : List ℕ) (t : NonceTracker) → (Tracker.pop_gap gs t).0.current ≤ suc t.current
unfolding Tracker.pop_gap Tracker.take_current
current-pop_gap [] t = omega arith
current-pop_gap (x ∷ xs) t = omega arith

current-get_and_increment :
    (t : NonceTracker) → (Tracker.get_and_increment t).0.current ≤ suc t.current
unfolding Tracker.get_and_increment Tracker.reserve_next_nonce Tracker.take_current
current-get_and_increment t = elim (Bool-cases (ltb 0 t.gap_count)) [
  | inl some_gap ↦ rw some_gap (current-pop_gap t.gaps _)
  | inr no_gap ↦ rw no_gap (omega arith)
]

-- Signing keeps the tracker valid, and moves its counter up by one at most.
record Steps (t t' : NonceTracker) : Type 0 where
  valid : IsValid t'
  near : t'.current ≤ suc t.current

signed_or_released-Steps :
    (w : FastWallet) (t : NonceTracker) (n now : ℕ) (built : WalletResult Transaction)
    → Steps t w.tracker
    → Steps t (record_signed_or_release w n built now).0.tracker
unfolding record_signed_or_release
signed_or_released-Steps w t n now (ok tx) s = s
signed_or_released-Steps w t n now (err why) s = record {
  valid = release-IsValid w.tracker n s.valid;
  near = omega (arith, s.near, current-release w.tracker n);
}

sign-Steps :
    (S : Setting) (w : FastWallet) (request : TransactionRequest) (now : ℕ)
    → suc w.tracker.current < u64_mod
    → IsValid w.tracker
    → Steps w.tracker (sign S w request now).0.tracker
unfolding sign
sign-Steps S w request now room v = signed_or_released-Steps _ w.tracker _ now _ (record {
  valid = get_and_increment-IsValid w.tracker room v;
  near = current-get_and_increment w.tracker;
})

module _ (C : Crypto) where
  typed_tx-sign :
      (typed : TypedTransaction) (tx : Transaction)
      → Signing.sign C typed ≡ ok tx
      → tx.typed_tx ≡ typed
  unfolding Signing.sign
  typed_tx-sign typed tx e = elim (WalletResult-cases (sign_typed C typed)) [
    | inl (sig, fine) ↦ sym (ap (λ x. x.typed_tx) (ok_same (rw fine at e)))
    | inr (why, failed) ↦ absurd (err_ok (rw failed at e))
  ]

  pub build-signed :
      (q : TransactionRequest) (tx : Transaction)
      → build_and_sign C q ≡ ok tx
      → build q ≡ ok tx.typed_tx
  unfolding build_and_sign
  build-signed q tx e = elim (WalletResult-cases (build q)) [
    | inl (typed, fine) ↦ fine ∙ ap ok (sym (typed_tx-sign typed tx (rw fine at e)))
    | inr (why, failed) ↦ absurd (err_ok (rw failed at e))
  ]

pub kept_signed :
    (w w' : FastWallet) (n now : ℕ) (built : WalletResult Transaction) (tx : Transaction)
    → record_signed_or_release w n built now ≡ (w', ok tx)
    → (built ≡ ok tx) × (w'.tracker ≡ w.tracker)
unfolding record_signed_or_release record_broadcast_candidate
kept_signed w w' n now (ok built) tx e = (ap (λ p. p.1) e, sym (ap (λ p. p.0.tracker) e))
kept_signed w w' n now (err why) tx e = absurd (err_ok (ap (λ p. p.1) e))

-- In a wallet whose tracker is valid and whose counter has room in the word, a transaction that `sign` gives is for the wallet's
-- chain, has the request's recipient, value and payload, and its nonce is the least available one, which was
-- announced and alone leaves the available ones.
pub sign-Announced :
    (S : Setting) (w w' : FastWallet) (request : TransactionRequest) (tx : Transaction) (now : ℕ)
    → suc w.tracker.current < u64_mod
    → IsValid w.tracker
    → sign S w request now ≡ (w', ok tx)
    → (chain_id tx.typed_tx ≡ S.chain_id)
      × (intent tx.typed_tx ≡ (request.to, request.value, request.payload))
      × Takes w.tracker (w'.tracker, nonce tx.typed_tx)
unfolding sign completed
sign-Announced S w w' request tx now room v e =
    let t = w.tracker in
    let t1 = (Tracker.get_and_increment t).0 in
    let n = (Tracker.get_and_increment t).1 in
    let q = completed S request n in
    let (was, least, announced, others) = get_and_increment-Takes t room v in
    let (built, tracker) = kept_signed (record w { tracker = t1 }) w' n now _ tx e in
    let agrees : Agrees q (ok tx.typed_tx) =
      subst (Agrees q) (build-signed S.crypto q tx built) (build-Agrees q) in
    let (chain, same, wants, limit, fees) = agrees in
    let taken : Takes t (w'.tracker, nonce tx.typed_tx) =
      subst (Takes t) (ap (λ u. (u, n)) (sym tracker) ∙ ap (λ k. (w'.tracker, k)) (sym same))
        (get_and_increment-Takes t room v) in
    (chain, wants, taken)

-- The nonces of what was signed, in order.
abbrev pub signed_nonces : List (WalletResult Transaction) → List ℕ
signed_nonces [] = []
signed_nonces (ok tx ∷ more) = nonce tx.typed_tx ∷ signed_nonces more
signed_nonces (err why ∷ more) = signed_nonces more

-- Strictly ascending.
abbrev pub Ascends : List ℕ → Type 0
Ascends [] = Unit
Ascends (n ∷ []) = Unit
Ascends (n ∷ (m ∷ ns)) = (n < m) × Ascends (m ∷ ns)

-- Between two trackers the numbers `ns` were taken, in order, and no other.
pub record TakesAll (t t' : NonceTracker) (ns : List ℕ) : Type 0 where
  pub ascending : Ascends ns
  pub were : (n : ℕ) → any (λ m. n == m) ns ≡ true → available t n ≡ true
  pub others : (n : ℕ) → available t' n ≡ (available t n && not (any (λ m. n == m) ns))

above_taken : (t t1 : NonceTracker) (n m : ℕ) → Takes t (t1, n) → available t1 m ≡ true → n < m
above_taken t t1 n m (was, least, announced, others) h =
    let low = least m in let rule = others m in ground arith

Ascends-cons :
    (t t1 : NonceTracker) (n : ℕ) (ns : List ℕ)
    → Takes t (t1, n)
    → ((m : ℕ) → any (λ k. m == k) ns ≡ true → available t1 m ≡ true)
    → Ascends ns
    → Ascends (n ∷ ns)
Ascends-cons t t1 n [] h were a = tt
Ascends-cons t t1 n (m ∷ ns) h were a =
    let here : (m == m) ≡ true = ground arith in (above_taken t t1 n m h (were m (rw here refl)), a)

TakesAll-cons :
    (t t1 t2 : NonceTracker) (n : ℕ) (ns : List ℕ)
    → Takes t (t1, n)
    → TakesAll t1 t2 ns
    → TakesAll t t2 (n ∷ ns)
TakesAll-cons t t1 t2 n ns h r = record {
  ascending = Ascends-cons t t1 n ns h r.were r.ascending;
  were = λ m found. elim (Bool-cases (m == n)) [
    | inl own ↦ rw ((==_iff m n).0 own) h.0
    | inr other ↦ let rule = h.3 m in let later = r.were m (rw other at found) in ground arith
  ];
  others = λ m. let rule = h.3 m in let later = r.others m in ground arith;
}

TakesAll-same :
    (t t1 t2 : NonceTracker) (ns : List ℕ)
    → ((n : ℕ) → available t1 n ≡ available t n)
    → TakesAll t1 t2 ns
    → TakesAll t t2 ns
TakesAll-same t t1 t2 ns same r = record {
  ascending = r.ascending;
  were = λ n found. sym (same n) ∙ r.were n found;
  others = λ n. let rule = same n in let later = r.others n in ground arith;
}

module _ (S : Setting) (json : BroadcastFailure → Message)
    (chain_nonce : SyncBlock → WalletResult ℕ) (broadcast : Transaction → WalletResult Bytes) where
  -- In a wallet whose tracker is valid and whose counter has room in the word for every request: the signing of a batch gives
  -- one result for each request; the nonces of the transactions that are signed are strictly ascending, were
  -- all available before, and exactly they are not available any more.
  pub sign_all-TakesAll :
      (w : FastWallet) (requests : List TransactionRequest) (now : ℕ)
      → w.tracker.current + length requests < u64_mod
      → IsValid w.tracker
      → (length (sign_all S json chain_nonce broadcast w requests now).1 ≡ length requests)
        × TakesAll w.tracker
            (sign_all S json chain_nonce broadcast w requests now).0.tracker
            (signed_nonces (sign_all S json chain_nonce broadcast w requests now).1)
  unfolding sign_all
  sign_all-TakesAll w [] now room v =
      (refl, record { ascending = tt; were = λ n found. cc; others = λ n. ground arith })
  sign_all-TakesAll w (request ∷ requests) now room v =
      let first = sign S w request now in
      let stepped = sign-Steps S w request now (omega arith) v in
      let (size, rest) =
        sign_all-TakesAll first.0 requests now (omega (arith, stepped.near)) stepped.valid in
      elim (WalletResult-cases first.1) [
        | inl (tx, e) ↦ rw e (
          ap suc size,
          TakesAll-cons _ _ _ _ _
              (sign-Announced S w first.0 request tx now (omega arith) v
                (ap (λ r. (first.0, r)) e)).2
              rest,
        )
        | inr (why, e) ↦ rw e (
          ap suc size,
          TakesAll-same _ _ _ _
              (λ n.
                sign_failed_restores S w first.0 request why now n (omega arith) v
                  (ap (λ r. (first.0, r)) e))
              rest,
        )
      ]
