-- ===== src/Transaction/Tests.antt =====
-- Tests of the encoders and of signing, and the theorems at concrete transactions.
use fast_wallet.Base.{
  ◌-◌, ℕ, zero, suc, ◌+◌, ◌/◌, ◌%◌, ◌≤◌, ◌≡◌, refl, false, [], ◌∷◌, ◌++◌, length, some, ltb,
  if◌then◌else◌, arith,
}
use fast_wallet.Errors.{ok}
use fast_wallet.Fees.{bump_u256}
use fast_wallet.Transaction.{
  Bytes, AccessListItem, Eip1559Transaction, TypedTransaction, eip1559, RecoverableSignature,
  max_fee_per_gas, max_priority_fee_per_gas, with_bumped_fees,
}
use fast_wallet.Transaction.Rlp.{Rlp, IsExact}
use fast_wallet.Transaction.Encode.{
  encode_to, to_length, encode_signature_scalar, signature_scalar_length, encode_access_list,
  access_list_length, canonical_signature_scalar_bytes,
}
use fast_wallet.Transaction.Forms.{encode_for_signing, encode_signed}
use fast_wallet.Transaction.Standards.{
  rlp_list, access_spec, recipient_spec, be_value, leading_zero, Standard, signing_items, envelope,
}
use fast_wallet.Transaction.Framing.{encode_for_signing-framed, encode_signed-framed}
use fast_wallet.Transaction.Scalar.{canonical_scalar}
use fast_wallet.Transaction.Request.{TransactionRequest, new_request, build}
use fast_wallet.Transaction.Sign.{
  Crypto, Prehash, signature, refused, Transaction, sign_hash, sign_hash_typed, signing_hash,
  sign_typed, sign,
}
use fast_wallet.Transaction.Eip155.{sign_hash-recovers, sign-framed}
use fast_wallet.Transaction.Identity.{Agrees, build-Agrees, LtFee, bump-raises}

-- The big-endian bytes of a number, before `rest`; 32 steps serve every 256-bit word.
abbrev be_bytes : ℕ → ℕ → Bytes → Bytes
be_bytes zero n rest = rest
be_bytes (suc fuel) zero rest = rest
be_bytes (suc fuel) (suc n) rest = be_bytes fuel (suc n / 256) (suc n % 256 ∷ rest)

abbrev bytes_of : ℕ → Bytes
bytes_of n = be_bytes 32 n []

abbrev with_header : Bytes → Bytes
with_header b =
    (if ltb (length b) 56
      then (128 + length b) ∷ []
      else (183 + length (bytes_of (length b))) ∷ bytes_of (length b))
    ++ b

-- RLP's string rule.
abbrev rlp_string : Bytes → Bytes
rlp_string [] = with_header []
rlp_string (c ∷ []) = if ltb c 128 then c ∷ [] else with_header (c ∷ [])
rlp_string (c ∷ d ∷ b) = with_header (c ∷ d ∷ b)

abbrev rlp_header : ℕ → Bytes
rlp_header n = if ltb n 56 then (192 + n) ∷ [] else (247 + length (bytes_of n)) ∷ bytes_of n

abbrev plain_rlp : Rlp
plain_rlp = record {
  uint = λ n. rlp_string (bytes_of n);
  uint_length = λ n. length (rlp_string (bytes_of n));
  string = rlp_string;
  string_length = λ b. length (rlp_string b);
  fixed = rlp_string;
  fixed_length = λ b. length (rlp_string b);
  list_header = rlp_header;
  length_of_length = λ n. length (rlp_header n);
}

plain_rlp-IsExact : IsExact plain_rlp
plain_rlp-IsExact = record {
  uint_exact = λ n. refl;
  string_exact = λ b. refl;
  fixed_exact = λ b. refl;
  header_exact = λ n. refl;
  zero_exact = refl;
}

abbrev repeated : ℕ → ℕ → Bytes
repeated zero b = []
repeated (suc n) b = b ∷ repeated n b

abbrev item : AccessListItem
item = record { address = repeated 20 7; storage_keys = repeated 32 1 ∷ [] }

abbrev fee_tx : Eip1559Transaction
fee_tx = record {
  chain_id = 8453;
  nonce = 7;
  max_priority_fee_per_gas = 259_311;
  max_fee_per_gas = 1_000_000;
  gas_limit = 210_000;
  to = some (repeated 20 0x11);
  value = 0;
  payload = [];
  access_list = [];
}

abbrev leading_zero_signature : RecoverableSignature
leading_zero_signature = record {
  r =
      0x00 ∷ 0x10 ∷ 0x20 ∷ 0x30 ∷ 0x40 ∷ 0x50 ∷ 0x60 ∷ 0x70 ∷ 0x80 ∷ 0x90 ∷ 0xA0 ∷ 0xB0 ∷ 0xC0
      ∷ 0xD0 ∷ 0xE0 ∷ 0xF0 ∷ 0x01 ∷ 0x12 ∷ 0x23 ∷ 0x34 ∷ 0x45 ∷ 0x56 ∷ 0x67 ∷ 0x78 ∷ 0x89 ∷ 0x9A
      ∷ 0xAB ∷ 0xBC ∷ 0xCD ∷ 0xDE ∷ 0xEF ∷ 0x01 ∷ [];
  s =
      0x11 ∷ 0x12 ∷ 0x13 ∷ 0x14 ∷ 0x15 ∷ 0x16 ∷ 0x17 ∷ 0x18 ∷ 0x19 ∷ 0x1A ∷ 0x1B ∷ 0x1C ∷ 0x1D
      ∷ 0x1E ∷ 0x1F ∷ 0x20 ∷ 0x21 ∷ 0x22 ∷ 0x23 ∷ 0x24 ∷ 0x25 ∷ 0x26 ∷ 0x27 ∷ 0x28 ∷ 0x29 ∷ 0x2A
      ∷ 0x2B ∷ 0x2C ∷ 0x2D ∷ 0x2E ∷ 0x2F ∷ 0x30 ∷ [];
  v = 1;
}

-- The source's own test vector.
signed_run :
    encode_signed plain_rlp (eip1559 fee_tx) leading_zero_signature
    ≡ 0x02 ∷ 0xF8 ∷ 0x6A ∷ 0x82 ∷ 0x21 ∷ 0x05 ∷ 0x07 ∷ 0x83 ∷ 0x03 ∷ 0xF4 ∷ 0xEF ∷ 0x83 ∷ 0x0F
      ∷ 0x42 ∷ 0x40 ∷ 0x83 ∷ 0x03 ∷ 0x34 ∷ 0x50 ∷ 0x94 ∷ 0x11 ∷ 0x11 ∷ 0x11 ∷ 0x11 ∷ 0x11 ∷ 0x11
      ∷ 0x11 ∷ 0x11 ∷ 0x11 ∷ 0x11 ∷ 0x11 ∷ 0x11 ∷ 0x11 ∷ 0x11 ∷ 0x11 ∷ 0x11 ∷ 0x11 ∷ 0x11 ∷ 0x11
      ∷ 0x11 ∷ 0x80 ∷ 0x80 ∷ 0xC0 ∷ 0x01 ∷ 0x9F ∷ 0x10 ∷ 0x20 ∷ 0x30 ∷ 0x40 ∷ 0x50 ∷ 0x60 ∷ 0x70
      ∷ 0x80 ∷ 0x90 ∷ 0xA0 ∷ 0xB0 ∷ 0xC0 ∷ 0xD0 ∷ 0xE0 ∷ 0xF0 ∷ 0x01 ∷ 0x12 ∷ 0x23 ∷ 0x34 ∷ 0x45
      ∷ 0x56 ∷ 0x67 ∷ 0x78 ∷ 0x89 ∷ 0x9A ∷ 0xAB ∷ 0xBC ∷ 0xCD ∷ 0xDE ∷ 0xEF ∷ 0x01 ∷ 0xA0 ∷ 0x11
      ∷ 0x12 ∷ 0x13 ∷ 0x14 ∷ 0x15 ∷ 0x16 ∷ 0x17 ∷ 0x18 ∷ 0x19 ∷ 0x1A ∷ 0x1B ∷ 0x1C ∷ 0x1D ∷ 0x1E
      ∷ 0x1F ∷ 0x20 ∷ 0x21 ∷ 0x22 ∷ 0x23 ∷ 0x24 ∷ 0x25 ∷ 0x26 ∷ 0x27 ∷ 0x28 ∷ 0x29 ∷ 0x2A ∷ 0x2B
      ∷ 0x2C ∷ 0x2D ∷ 0x2E ∷ 0x2F ∷ 0x30 ∷ []
unfolding encode_signed encode_to to_length encode_access_list access_list_length
    encode_signature_scalar signature_scalar_length canonical_signature_scalar_bytes
signed_run = refl

encode_for_signing-framed_case :
    encode_for_signing plain_rlp (eip1559 fee_tx)
    ≡ envelope (eip1559 fee_tx) (
        rlp_list plain_rlp (
          signing_items plain_rlp
            (access_spec plain_rlp)
            (recipient_spec plain_rlp)
            (eip1559 fee_tx)))
encode_for_signing-framed_case =
    encode_for_signing-framed plain_rlp plain_rlp-IsExact (eip1559 fee_tx)

encode_signed-framed_example :
    Standard plain_rlp
      (eip1559 fee_tx)
      leading_zero_signature
      (encode_signed plain_rlp (eip1559 fee_tx) leading_zero_signature)
encode_signed-framed_example =
    encode_signed-framed plain_rlp plain_rlp-IsExact (eip1559 fee_tx) leading_zero_signature

canonical_scalar_case :
    (be_value 0 (canonical_signature_scalar_bytes (0 ∷ 0 ∷ 5 ∷ 0 ∷ []))
      ≡ be_value 0 (0 ∷ 0 ∷ 5 ∷ 0 ∷ []))
    × (leading_zero (canonical_signature_scalar_bytes (0 ∷ 0 ∷ 5 ∷ 0 ∷ [])) ≡ false)
    × (length (canonical_signature_scalar_bytes (0 ∷ 0 ∷ 5 ∷ 0 ∷ [])) ≤ 4)
canonical_scalar_case = canonical_scalar (0 ∷ 0 ∷ 5 ∷ 0 ∷ [])

abbrev fee_request : TransactionRequest
fee_request = record new_request {
  max_fee_per_gas = some 30;
  nonce = 4;
  chain_id = 1;
  gas_limit = 21_000;
}

build-Agrees_case : Agrees fee_request (build fee_request)
build-Agrees_case = build-Agrees fee_request

abbrev bumped_tx : Eip1559Transaction
bumped_tx = record fee_tx { max_priority_fee_per_gas = 291_725; max_fee_per_gas = 1_125_000 }

bumped_run : with_bumped_fees (eip1559 fee_tx) 1250 ≡ some (eip1559 bumped_tx)
unfolding with_bumped_fees bump_u256
bumped_run = refl

bump-raises_case :
    (bumped : TypedTransaction) × (with_bumped_fees (eip1559 fee_tx) 1250 ≡ some bumped)
    × LtFee (max_fee_per_gas (eip1559 fee_tx)) (max_fee_per_gas bumped)
    × LtFee (max_priority_fee_per_gas (eip1559 fee_tx)) (max_priority_fee_per_gas bumped)
unfolding max_fee_per_gas max_priority_fee_per_gas
bump-raises_case =
    bump-raises (eip1559 fee_tx) 1250 (omega arith) (omega arith, omega arith)
      (omega arith, omega arith)

-- A curve that signs every hash but the empty one with the same bytes, and a hash that is its argument.
abbrev refuses_empty : Bytes → Prehash
refuses_empty [] = refused []
refuses_empty (b ∷ bs) = signature (repeated 64 9) 1

abbrev plain_crypto : Crypto
plain_crypto = record {
  rlp = plain_rlp;
  keccak256 = λ b. b;
  sign_prehash_recoverable = refuses_empty;
}

abbrev refusing_crypto : Crypto
refusing_crypto = record {
  rlp = plain_rlp;
  keccak256 = λ b. b;
  sign_prehash_recoverable = λ b. refused [];
}

sign_hash-recovers_case :
    (sig : RecoverableSignature) × (sign_hash plain_crypto (3 ∷ []) 8453 ≡ ok sig)
    × ((sig.v - 35) / 2 ≡ 8453)
    × ((sig.v - 35) % 2 ≡ 1)
sign_hash-recovers_case =
    sign_hash-recovers plain_crypto (3 ∷ []) (repeated 64 9) 8453 1 refl (omega arith) (omega arith)

sign-framed_case :
    (signed : Transaction) × (sign plain_crypto (eip1559 fee_tx) ≡ ok signed)
    × (signed.typed_tx ≡ eip1559 fee_tx)
    × Standard plain_rlp
        (eip1559 fee_tx)
        (record { r = repeated 32 9; s = repeated 32 9; v = 1 })
        signed.encoded
    × (signed.hash ≡ signed.encoded)
unfolding sign_typed sign_hash_typed signing_hash encode_for_signing
sign-framed_case =
    sign-framed plain_crypto (eip1559 fee_tx)
      (record { r = repeated 32 9; s = repeated 32 9; v = 1 }) plain_rlp-IsExact refl
