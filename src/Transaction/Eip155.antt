-- ===== src/Transaction/Eip155.antt =====
-- What a signed transaction carries: the signature's `v`, its bytes and its hash.
use fast_wallet.Base.{ℕ, ◌+◌, ◌-◌, ◌*◌, ◌/◌, ◌%◌, ◌≤◌, ◌<◌, ◌≡◌, refl, u64_mod, arith}
use fast_wallet.Errors.{ok, err, signing_error}
use fast_wallet.Transaction.{
  Bytes, TypedTransaction, legacy, eip2930, eip1559, RecoverableSignature,
}
use fast_wallet.Transaction.Rlp.{IsExact}
use fast_wallet.Transaction.Forms.{encode_signed}
use fast_wallet.Transaction.Standards.{Standard}
use fast_wallet.Transaction.Framing.{encode_signed-framed}
use fast_wallet.Transaction.Sign.{
  Crypto, signature, refused, Transaction, first_bytes, bytes_from, sign_hash, sign_hash_typed,
  signing_hash, sign_typed, sign,
}

module _ (C : Crypto) where
  -- From the `v` of a hash signed for a chain, whose doubled id leaves room in a word, and with a recovery
  -- id of 0 or 1, the chain id and the recovery id are read back as EIP-155 says.
  pub sign_hash-recovers :
      (hash bytes : Bytes) (chain rec_id : ℕ)
      → C.sign_prehash_recoverable hash ≡ signature bytes rec_id
      → rec_id ≤ 1
      → chain * 2 + 36 < u64_mod
      → (sig : RecoverableSignature) × (sign_hash C hash chain ≡ ok sig)
        × ((sig.v - 35) / 2 ≡ chain)
        × ((sig.v - 35) % 2 ≡ rec_id)
  unfolding sign_hash
  sign_hash-recovers hash bytes chain rec_id e low fits =
      let v = (rec_id + 35 + chain * 2) % u64_mod in
      (
        record { r = first_bytes 32 bytes; s = bytes_from 32 bytes; v = v },
        rw e refl,
        omega arith,
        omega arith,
      )

  -- A signature that succeeds gives the transaction that was asked for, its bytes are the envelope of the
  -- list of the standard's items under that signature, and its hash is the hash of these bytes; the
  -- lengths of the RLP library being right.
  pub sign-framed :
      (tx : TypedTransaction) (sig : RecoverableSignature)
      → IsExact C.rlp
      → sign_typed C tx ≡ ok sig
      → (signed : Transaction) × (sign C tx ≡ ok signed)
        × (signed.typed_tx ≡ tx)
        × Standard C.rlp tx sig signed.encoded
        × (signed.hash ≡ C.keccak256 signed.encoded)
  unfolding sign
  sign-framed tx sig exact e =
      let encoded = encode_signed C.rlp tx sig in
      let signed : Transaction = record {
        typed_tx = tx;
        signature = sig;
        encoded = encoded;
        hash = C.keccak256 encoded;
      } in
      (signed, rw e refl, refl, encode_signed-framed C.rlp exact tx sig, refl)

  -- When the curve refuses the hash, nothing is signed and the refusal is the error.
  pub sign-refused :
      (tx : TypedTransaction) (why : Bytes)
      → C.sign_prehash_recoverable (signing_hash C tx) ≡ refused why
      → sign C tx ≡ err (signing_error why)
  unfolding sign sign_typed sign_hash sign_hash_typed
  sign-refused (legacy tx) why e = rw e refl
  sign-refused (eip2930 tx) why e = rw e refl
  sign-refused (eip1559 tx) why e = rw e refl
