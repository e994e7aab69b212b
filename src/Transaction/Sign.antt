-- ===== src/Transaction/Sign.antt =====
-- Signing: `Transaction` of src/transaction.rs and `sign_hash`, `sign_hash_typed` of src/signer.rs. The
-- curve and Keccak are other crates': the recoverable signature of a hash under the wallet's key, as 64
-- bytes with a recovery id, and the hash function are parameters.
use fast_wallet.Base.{ℕ, zero, suc, ◌+◌, ◌*◌, ◌%◌, [], ◌∷◌, Option, none, some, u64_mod}
use fast_wallet.Errors.{WalletResult, ok, err, signing_error, Message, ◌>>=◌}
use fast_wallet.Transaction.{
  Bytes, TypedTransaction, legacy, eip2930, eip1559, RecoverableSignature, chain_id,
  with_bumped_fees,
}
use fast_wallet.Transaction.Rlp.{Rlp}
use fast_wallet.Transaction.Forms.{encode_for_signing, encode_signed}
use fast_wallet.Transaction.Request.{TransactionRequest, build}

pub data Prehash : Type 0 where
  signature : (bytes : Bytes) (recovery_id : ℕ) → Prehash
  refused : Message → Prehash

pub record Crypto : Type 0 where
  pub rlp : Rlp
  pub keccak256 : Bytes → Bytes
  pub sign_prehash_recoverable : Bytes → Prehash

pub record Transaction : Type 0 where
  pub typed_tx : TypedTransaction
  pub signature : RecoverableSignature
  pub encoded : Bytes
  pub hash : Bytes

abbrev pub first_bytes : ℕ → Bytes → Bytes
first_bytes zero b = []
first_bytes (suc n) [] = []
first_bytes (suc n) (x ∷ b) = x ∷ first_bytes n b

abbrev pub bytes_from : ℕ → Bytes → Bytes
bytes_from zero b = b
bytes_from (suc n) [] = []
bytes_from (suc n) (x ∷ b) = bytes_from n b

abbrev pub recoverable : Prehash → (ℕ → ℕ) → WalletResult RecoverableSignature
recoverable (signature bytes rec_id) v_of =
    ok (record { r = first_bytes 32 bytes; s = bytes_from 32 bytes; v = v_of rec_id })
recoverable (refused why) v_of = err (signing_error why)

module _ (C : Crypto) where
  -- EIP-155; the sum is a u64.
  unfoldable pub sign_hash : Bytes → ℕ → WalletResult RecoverableSignature
  sign_hash hash chain =
      recoverable (C.sign_prehash_recoverable hash) (λ rec_id. (rec_id + 35 + chain * 2) % u64_mod)

  unfoldable pub sign_hash_typed : Bytes → WalletResult RecoverableSignature
  sign_hash_typed hash = recoverable (C.sign_prehash_recoverable hash) (λ rec_id. rec_id)

  unfoldable pub signing_hash : TypedTransaction → Bytes
  unfolding encode_for_signing
  signing_hash tx = C.keccak256 (encode_for_signing C.rlp tx)

  unfoldable pub sign_typed : TypedTransaction → WalletResult RecoverableSignature
  unfolding sign_hash sign_hash_typed signing_hash chain_id
  sign_typed (legacy tx) = sign_hash (signing_hash (legacy tx)) tx.chain_id
  sign_typed (eip2930 tx) = sign_hash_typed (signing_hash (eip2930 tx))
  sign_typed (eip1559 tx) = sign_hash_typed (signing_hash (eip1559 tx))

  unfoldable pub sign : TypedTransaction → WalletResult Transaction
  unfolding sign_typed
  sign tx = sign_typed tx >>= λ sig.
      let encoded = encode_signed C.rlp tx sig in
      ok (record { typed_tx = tx; signature = sig; encoded = encoded; hash = C.keccak256 encoded })

  unfoldable pub build_and_sign : TransactionRequest → WalletResult Transaction
  unfolding sign
  build_and_sign request = build request >>= sign

  -- `None` is for the forms without EIP-1559 fees.
  unfoldable pub bumped_resign : Transaction → ℕ → Option (WalletResult Transaction)
  unfolding sign
  bumped_resign tx bump_bps = elim (with_bumped_fees tx.typed_tx bump_bps) [
    | some bumped ↦ some (sign bumped)
    | none ↦ none
  ]
