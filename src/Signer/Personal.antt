-- ===== src/Signer/Personal.antt =====
-- Signed messages: what tells one message from another.
use fast_wallet.Base.{
  ℕ, zero, suc, ◌+◌, ◌/◌, ◌%◌, ◌≤◌, ◌≡◌, ◌≢◌, refl, true, ap, [], ◌∷◌, ◌++◌, length, length-append,
  ltb, Bool-cases, inl, inr, arith,
}
use fast_wallet.Errors.{Message}
use fast_wallet.Errors.Text.{codes}
use fast_wallet.Errors.Display.{decimal_from, decimal}
use fast_wallet.Transaction.{Bytes, TypedTransaction, legacy, eip2930, eip1559}
use fast_wallet.Transaction.Rlp.{Rlp}
use fast_wallet.Transaction.Forms.{
  legacy_len_for_signing, legacy_signing_fields, encode_for_signing,
}
use fast_wallet.Signer.{prefixed}

-- Printing only adds digits.
length-le-decimal_from : (fuel n : ℕ) (t : Message) → length t ≤ length (decimal_from fuel n t)
length-le-decimal_from zero n t = omega arith
length-le-decimal_from (suc f) n t = elim (Bool-cases (ltb n 10)) [
  | inl small ↦ rw small (omega arith)
  | inr large ↦ rw large (omega (arith, length-le-decimal_from f (n / 10) ((48 + n % 10) ∷ t)))
]

-- A larger number has no fewer digits, whatever digits follow.
length-decimal_from :
    (fuel m n : ℕ) (s t : Message)
    → m ≤ n
    → length s ≤ length t
    → length (decimal_from fuel m s) ≤ length (decimal_from fuel n t)
length-decimal_from zero m n s t h k = k
length-decimal_from (suc f) m n s t h k =
    let grows = length-le-decimal_from (suc f) n t in
    let next = length-le-decimal_from f (n / 10) ((48 + n % 10) ∷ t) in
    elim (Bool-cases (ltb n 10)) [
      | inl small ↦ let below : ltb m 10 ≡ true = ground arith in rw (small, below) (omega arith)
      | inr large ↦ elim (Bool-cases (ltb m 10)) [
        | inl below ↦ rw (large, below) (omega arith)
        | inr above ↦
            rw (large, above)
              (length-decimal_from f (m / 10) (n / 10) ((48 + m % 10) ∷ s) ((48 + n % 10) ∷ t)
                (omega arith) (omega arith))
      ]
    ]

-- What never falls, added to its argument, tells the argument.
sum_tells :
    (f : ℕ → ℕ) (m n : ℕ) → (m ≤ n → f m ≤ f n) → (n ≤ m → f n ≤ f m) → f m + m ≡ f n + n → m ≡ n
sum_tells f m n up down e = elim (Bool-cases (ltb m n)) [
  | inl less ↦ let more = up (ground arith) in ground arith
  | inr no_less ↦ let more = down (ground arith) in ground arith
]

behind_same : (a b m n : Bytes) → length a ≡ length b → a ++ m ≡ b ++ n → m ≡ n
behind_same [] [] m n h e = e
behind_same [] (y ∷ b) m n h e = absurd (omega (arith, h))
behind_same (x ∷ a) [] m n h e = absurd (omega (arith, h))
behind_same (x ∷ a) (y ∷ b) m n h e = behind_same a b m n (omega (arith, h)) (cc)

prefixed_injective : (m n : Bytes) → prefixed m ≡ prefixed n → m ≡ n
unfolding prefixed
prefixed_injective m n e =
    let text = 0x19 ∷ codes "Ethereum Signed Message:\n" in
    let rest = behind_same text text _ _ refl e in
    let total : length (decimal (length m)) + length m ≡ length (decimal (length n)) + length n =
      omega (
        arith,
        ap length rest,
        length-append (decimal (length m)) m,
        length-append (decimal (length n)) n,
      ) in
    let size =
      sum_tells (λ k. length (decimal k)) (length m) (length n)
        (λ h. length-decimal_from 20 (length m) (length n) [] [] h (omega arith))
        (λ h. length-decimal_from 20 (length n) (length m) [] [] h (omega arith)) total in
    behind_same (decimal (length m)) (decimal (length n)) m n (ap (λ k. length (decimal k)) size)
      rest

-- For two different messages, different bytes are hashed and signed.
pub prefixed_distinct : (m n : Bytes) → m ≢ n → prefixed m ≢ prefixed n
prefixed_distinct m n other same = other (prefixed_injective m n same)

-- RLP: the first byte of a list is at least 192.
abbrev pub MarksLists : Rlp → Type 0
MarksLists R = (n : ℕ) → (b : ℕ) × (rest : Bytes) × (R.list_header n ≡ b ∷ rest) × (192 ≤ b)

abbrev first_byte : Bytes → ℕ
first_byte [] = 0
first_byte (b ∷ rest) = b

-- When RLP marks its lists, the bytes that are hashed and signed for a message are those of no transaction.
pub message_is_no_transaction :
    (R : Rlp) (message : Bytes) (tx : TypedTransaction)
    → MarksLists R
    → prefixed message ≢ encode_for_signing R tx
unfolding prefixed encode_for_signing legacy_signing_fields
message_is_no_transaction R message (legacy tx) marks e =
    let (b, rest, header, high) = marks (legacy_len_for_signing R tx) in
    let same : 0x19 ≡ b = ap first_byte (rw header at e) in omega arith
message_is_no_transaction R message (eip2930 tx) marks e =
    let same : ◌≡◌ {A = ℕ} 0x19 0x01 = ap first_byte e in omega arith
message_is_no_transaction R message (eip1559 tx) marks e =
    let same : ◌≡◌ {A = ℕ} 0x19 0x02 = ap first_byte e in omega arith
