-- ===== src/Transaction/Identity.antt =====
-- What building, bumping and signing keep of a transaction, and which form a request takes.
use fast_wallet.Base.{
  sym, inl, inr, Bool-cases, ℕ, ◌+◌, ◌*◌, ◌<◌, ◌≡◌, refl, ap, ◌||◌, Option, none, some, is_some,
  unwrap_or, u256_mod,
}
use fast_wallet.Errors.{WalletResult, ok, err}
use fast_wallet.Fees.Bump.{bump_grows}
use fast_wallet.Transaction.{
  Bytes, TypedTransaction, legacy, eip2930, eip1559, chain_id, nonce, max_fee_per_gas,
  max_priority_fee_per_gas, with_bumped_fees,
}
use fast_wallet.Transaction.Request.{TransactionRequest, build}

-- What a transaction does, whatever it pays: recipient, value and payload.
abbrev pub intent : TypedTransaction → Option Bytes × ℕ × Bytes
intent (legacy tx) = (tx.to, tx.value, tx.payload)
intent (eip2930 tx) = (tx.to, tx.value, tx.payload)
intent (eip1559 tx) = (tx.to, tx.value, tx.payload)

abbrev pub gas_limit : TypedTransaction → ℕ
gas_limit (legacy tx) = tx.gas_limit
gas_limit (eip2930 tx) = tx.gas_limit
gas_limit (eip1559 tx) = tx.gas_limit

-- What a request says, on the side of the request.
abbrev pub Agrees : TransactionRequest → WalletResult TypedTransaction → Type 0
Agrees q (err e) = ⊥
Agrees q (ok tx) =
    (chain_id tx ≡ q.chain_id)
    × (nonce tx ≡ q.nonce)
    × (intent tx ≡ (q.to, q.value, q.payload))
    × (gas_limit tx ≡ q.gas_limit)
    × (is_some (max_fee_per_gas tx)
        ≡ (is_some q.max_fee_per_gas || is_some q.max_priority_fee_per_gas))

-- Building a request never fails, and its transaction has the request's chain, nonce, recipient, value,
-- payload and gas limit; it carries EIP-1559 fees exactly when the request names one of the two.
pub build-Agrees : (q : TransactionRequest) → Agrees q (build q)
unfolding build chain_id nonce max_fee_per_gas
build-Agrees q =
    elim (Bool-cases (is_some q.max_fee_per_gas || is_some q.max_priority_fee_per_gas)) [
      | inl e ↦ rw e (refl, refl, refl, refl, sym e)
      | inr e ↦ rw e (elim (Bool-cases (is_some q.access_list)) [
        | inl a ↦ rw a (refl, refl, refl, refl, sym e)
        | inr a ↦ rw a (refl, refl, refl, refl, sym e)
      ])
    ]

-- A transaction whose fees can be bumped keeps its chain, nonce, recipient, value, payload and gas limit.
pub bump-keeps :
    (tx bumped : TypedTransaction) (bps : ℕ)
    → with_bumped_fees tx bps ≡ some bumped
    → (chain_id bumped ≡ chain_id tx)
      × (nonce bumped ≡ nonce tx)
      × (intent bumped ≡ intent tx)
      × (gas_limit bumped ≡ gas_limit tx)
unfolding with_bumped_fees chain_id nonce
bump-keeps (eip1559 tx) bumped bps e =
    let same = ap (λ o. unwrap_or o (eip1559 tx)) e in
    (sym (ap chain_id same), sym (ap nonce same), sym (ap intent same), sym (ap gas_limit same))
bump-keeps (legacy tx) bumped bps e = cc
bump-keeps (eip2930 tx) bumped bps e = cc

-- A fee of an option, with its room for a bump within the word, and not zero.
abbrev pub CanGrow : Option ℕ → ℕ → Type 0
CanGrow none bps = ⊥
CanGrow (some fee) bps = (0 < fee) × (fee * (10_000 + bps) + 9999 < u256_mod)

abbrev pub LtFee : Option ℕ → Option ℕ → Type 0
LtFee (some a) (some b) = a < b
LtFee _ _ = ⊥

-- A bump other than zero of a transaction whose two fees are not zero and have room within the word
-- succeeds and raises both fees, as the replacement rule wants.
pub bump-raises :
    (tx : TypedTransaction) (bps : ℕ)
    → 0 < bps
    → CanGrow (max_fee_per_gas tx) bps
    → CanGrow (max_priority_fee_per_gas tx) bps
    → (bumped : TypedTransaction) × (with_bumped_fees tx bps ≡ some bumped)
      × LtFee (max_fee_per_gas tx) (max_fee_per_gas bumped)
      × LtFee (max_priority_fee_per_gas tx) (max_priority_fee_per_gas bumped)
unfolding with_bumped_fees max_fee_per_gas max_priority_fee_per_gas
bump-raises (legacy tx) bps p cap tip = elim cap [ ]
bump-raises (eip2930 tx) bps p cap tip = elim cap [ ]
bump-raises (eip1559 tx) bps p cap tip = (
  _,
  refl,
  bump_grows tx.max_fee_per_gas bps cap.1 cap.0 p,
  bump_grows tx.max_priority_fee_per_gas bps tip.1 tip.0 p,
)
