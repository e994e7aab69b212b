-- ===== src/Transaction/Forms.antt =====
-- The encodings of the three transaction forms, for signing and signed, and their dispatch. A module
-- for each form; `signed_len` is the source's `rlp_list_len_signed`.
use fast_wallet.Base.{ℕ, ◌+◌, [], ◌∷◌}
use fast_wallet.Transaction.{
  Bytes, LegacyTransaction, Eip2930Transaction, Eip1559Transaction, TypedTransaction, legacy,
  eip2930, eip1559, RecoverableSignature,
}
use fast_wallet.Transaction.Rlp.{Rlp}
use fast_wallet.Transaction.Encode.{
  written, encode_to, to_length, encode_access_list, access_list_length, encode_signature_scalar,
  signature_scalar_length,
}

module _ (R : Rlp) where
  unfoldable pub legacy_len_for_signing : LegacyTransaction → ℕ
  legacy_len_for_signing tx =
      R.uint_length tx.nonce
      + R.uint_length tx.gas_price
      + R.uint_length tx.gas_limit
      + to_length R tx.to
      + R.uint_length tx.value
      + R.string_length tx.payload
      + R.uint_length tx.chain_id
      + 1
      + 1

  unfoldable pub legacy_signing_fields : LegacyTransaction → Bytes
  unfolding legacy_len_for_signing
  legacy_signing_fields tx = written (
      R.list_header (legacy_len_for_signing tx)
      ∷ R.uint tx.nonce
      ∷ R.uint tx.gas_price
      ∷ R.uint tx.gas_limit
      ∷ encode_to R tx.to
      ∷ R.uint tx.value
      ∷ R.string tx.payload
      ∷ R.uint tx.chain_id
      ∷ R.uint 0
      ∷ R.uint 0
      ∷ [])

  unfoldable pub legacy_signed_len : LegacyTransaction → RecoverableSignature → ℕ
  legacy_signed_len tx sig =
      R.uint_length tx.nonce
      + R.uint_length tx.gas_price
      + R.uint_length tx.gas_limit
      + to_length R tx.to
      + R.uint_length tx.value
      + R.string_length tx.payload
      + R.uint_length sig.v
      + signature_scalar_length R sig.r
      + signature_scalar_length R sig.s

  unfoldable pub legacy_encode_signed : LegacyTransaction → RecoverableSignature → Bytes
  unfolding legacy_signed_len
  legacy_encode_signed tx sig = written (
      R.list_header (legacy_signed_len tx sig)
      ∷ R.uint tx.nonce
      ∷ R.uint tx.gas_price
      ∷ R.uint tx.gas_limit
      ∷ encode_to R tx.to
      ∷ R.uint tx.value
      ∷ R.string tx.payload
      ∷ R.uint sig.v
      ∷ encode_signature_scalar R sig.r
      ∷ encode_signature_scalar R sig.s
      ∷ [])

  unfoldable pub eip1559_len : Eip1559Transaction → ℕ
  eip1559_len tx =
      R.uint_length tx.chain_id
      + R.uint_length tx.nonce
      + R.uint_length tx.max_priority_fee_per_gas
      + R.uint_length tx.max_fee_per_gas
      + R.uint_length tx.gas_limit
      + to_length R tx.to
      + R.uint_length tx.value
      + R.string_length tx.payload
      + access_list_length R tx.access_list

  unfoldable pub eip1559_fields : Eip1559Transaction → Bytes
  unfolding eip1559_len
  eip1559_fields tx = written (
      R.list_header (eip1559_len tx)
      ∷ R.uint tx.chain_id
      ∷ R.uint tx.nonce
      ∷ R.uint tx.max_priority_fee_per_gas
      ∷ R.uint tx.max_fee_per_gas
      ∷ R.uint tx.gas_limit
      ∷ encode_to R tx.to
      ∷ R.uint tx.value
      ∷ R.string tx.payload
      ∷ encode_access_list R tx.access_list
      ∷ [])

  unfoldable pub eip1559_signed_len : Eip1559Transaction → RecoverableSignature → ℕ
  unfolding eip1559_len
  eip1559_signed_len tx sig =
      eip1559_len tx
      + R.uint_length sig.v
      + signature_scalar_length R sig.r
      + signature_scalar_length R sig.s

  unfoldable pub eip1559_encode_signed : Eip1559Transaction → RecoverableSignature → Bytes
  unfolding eip1559_signed_len
  eip1559_encode_signed tx sig =
      0x02
      ∷ written (
          R.list_header (eip1559_signed_len tx sig)
          ∷ R.uint tx.chain_id
          ∷ R.uint tx.nonce
          ∷ R.uint tx.max_priority_fee_per_gas
          ∷ R.uint tx.max_fee_per_gas
          ∷ R.uint tx.gas_limit
          ∷ encode_to R tx.to
          ∷ R.uint tx.value
          ∷ R.string tx.payload
          ∷ encode_access_list R tx.access_list
          ∷ R.uint sig.v
          ∷ encode_signature_scalar R sig.r
          ∷ encode_signature_scalar R sig.s
          ∷ [])

  unfoldable pub eip2930_len : Eip2930Transaction → ℕ
  eip2930_len tx =
      R.uint_length tx.chain_id
      + R.uint_length tx.nonce
      + R.uint_length tx.gas_price
      + R.uint_length tx.gas_limit
      + to_length R tx.to
      + R.uint_length tx.value
      + R.string_length tx.payload
      + access_list_length R tx.access_list

  unfoldable pub eip2930_fields : Eip2930Transaction → Bytes
  unfolding eip2930_len
  eip2930_fields tx = written (
      R.list_header (eip2930_len tx)
      ∷ R.uint tx.chain_id
      ∷ R.uint tx.nonce
      ∷ R.uint tx.gas_price
      ∷ R.uint tx.gas_limit
      ∷ encode_to R tx.to
      ∷ R.uint tx.value
      ∷ R.string tx.payload
      ∷ encode_access_list R tx.access_list
      ∷ [])

  unfoldable pub eip2930_signed_len : Eip2930Transaction → RecoverableSignature → ℕ
  unfolding eip2930_len
  eip2930_signed_len tx sig =
      eip2930_len tx
      + R.uint_length sig.v
      + signature_scalar_length R sig.r
      + signature_scalar_length R sig.s

  unfoldable pub eip2930_encode_signed : Eip2930Transaction → RecoverableSignature → Bytes
  unfolding eip2930_signed_len
  eip2930_encode_signed tx sig =
      0x01
      ∷ written (
          R.list_header (eip2930_signed_len tx sig)
          ∷ R.uint tx.chain_id
          ∷ R.uint tx.nonce
          ∷ R.uint tx.gas_price
          ∷ R.uint tx.gas_limit
          ∷ encode_to R tx.to
          ∷ R.uint tx.value
          ∷ R.string tx.payload
          ∷ encode_access_list R tx.access_list
          ∷ R.uint sig.v
          ∷ encode_signature_scalar R sig.r
          ∷ encode_signature_scalar R sig.s
          ∷ [])

  -- `encode_for_signing`, of which `signing_hash` is the hash.
  unfoldable pub encode_for_signing : TypedTransaction → Bytes
  unfolding legacy_signing_fields eip2930_fields eip1559_fields
  encode_for_signing (legacy tx) = legacy_signing_fields tx
  encode_for_signing (eip2930 tx) = 0x01 ∷ eip2930_fields tx
  encode_for_signing (eip1559 tx) = 0x02 ∷ eip1559_fields tx

  unfoldable pub encode_signed : TypedTransaction → RecoverableSignature → Bytes
  unfolding legacy_encode_signed eip2930_encode_signed eip1559_encode_signed
  encode_signed (legacy tx) sig = legacy_encode_signed tx sig
  encode_signed (eip2930 tx) sig = eip2930_encode_signed tx sig
  encode_signed (eip1559 tx) sig = eip1559_encode_signed tx sig
