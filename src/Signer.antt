-- ===== src/Signer.antt =====
-- The keys of src/signer.rs, with `public_key_to_address` of src/crypto.rs: where a signer comes from, and what it
-- signs besides transactions. The curve, Keccak, hex and the file system are other code.
pub mod Personal
pub mod Hex
mod Tests
use fast_wallet.Base.{
  ℕ, ◌%◌, List, [], ◌∷◌, ◌++◌, ◌⊎◌, inl, inr, Option, none, some, length, ◌==◌, if◌then◌else◌,
}
use fast_wallet.Errors.{
  Message, invalid_private_key, hex_error, no_credentials_dir, credential_error, WalletResult, ok,
  err,
}
use fast_wallet.Errors.Text.{codes, trim}
use fast_wallet.Errors.Display.{decimal}
use fast_wallet.Transaction.{Bytes, RecoverableSignature}
use fast_wallet.Transaction.Rlp.{Rlp}
use fast_wallet.Transaction.Sign.{Crypto, Prehash, bytes_from, sign_hash}
use fast_wallet.Rpc.Send.{without_0x}

-- `hex::decode`, Keccak, RLP, and the curve: the uncompressed public key of a private key, with the byte in front,
-- and the signature of a hash. What fails gives the text of its error.
pub record Keys : Type 0 where
  pub decode : Message → Message ⊎ Bytes
  pub keccak256 : Bytes → Bytes
  pub rlp : Rlp
  pub public_key : Bytes → Message ⊎ Bytes
  pub sign_prehash : Bytes → Bytes → Prehash

pub record FastSigner : Type 0 where
  pub signing_key : Bytes
  pub address : Bytes

-- The two sources of a key.
pub data KeySource : Type 0 where
  hex credential : Message → KeySource

-- What the process sees: the directory of its credentials, and what reading a file of it gives.
pub record Process : Type 0 where
  pub credentials_directory : Option Message
  pub read_to_string : Message → Message → Message ⊎ Message

-- `r`, `s` and the lowest byte of `v`.
unfoldable pub to_bytes : RecoverableSignature → Bytes
to_bytes sig = sig.r ++ (sig.s ++ ((sig.v % 256) ∷ []))

module _ (K : Keys) where
  -- `hash[12..]`.
  unfoldable pub public_key_to_address : Bytes → Bytes
  public_key_to_address pubkey = bytes_from 12 (K.keccak256 pubkey)

  unfoldable pub new_signer : Bytes → WalletResult FastSigner
  unfolding public_key_to_address
  new_signer private_key = elim (K.public_key private_key) [
    | inl text ↦ err (invalid_private_key text)
    | inr point ↦
        ok (record {
          signing_key = private_key;
          address = public_key_to_address (bytes_from 1 point);
        })
  ]

  unfoldable pub from_hex : Message → WalletResult FastSigner
  unfolding new_signer without_0x
  from_hex hex_key = elim (K.decode (without_0x hex_key)) [
    | inl text ↦ err (hex_error text)
    | inr key_bytes ↦
        (if length key_bytes == 32
          then new_signer key_bytes
          else err
              (invalid_private_key (codes "Expected 32 bytes, got " ++ decimal (length key_bytes))))
  ]

  -- A credential's text is trimmed, a key that is given is not.
  unfoldable pub from_source : Process → KeySource → WalletResult FastSigner
  unfolding from_hex trim
  from_source p (hex hex_key) = from_hex hex_key
  from_source p (credential name) = elim p.credentials_directory [
    | none ↦ err no_credentials_dir
    | some dir ↦ elim (p.read_to_string dir name) [
      | inl text ↦ err (credential_error text)
      | inr buf ↦ from_hex (trim buf)
    ]
  ]

  -- The signer, as transactions use it.
  abbrev pub crypto_of : FastSigner → Crypto
  crypto_of signer = record {
    rlp = K.rlp;
    keccak256 = K.keccak256;
    sign_prehash_recoverable = K.sign_prehash signer.signing_key;
  }

  unfoldable pub sign_data : FastSigner → Bytes → ℕ → WalletResult RecoverableSignature
  unfolding sign_hash
  sign_data signer payload chain_id = sign_hash (crypto_of signer) (K.keccak256 payload) chain_id

-- What `sign_message` has hashed and signed.
unfoldable pub prefixed : Bytes → Bytes
prefixed message =
    (0x19 ∷ codes "Ethereum Signed Message:\n") ++ (decimal (length message) ++ message)

unfoldable pub sign_message : Keys → FastSigner → Bytes → ℕ → WalletResult RecoverableSignature
unfolding prefixed sign_data
sign_message K signer message chain_id = sign_data K signer (prefixed message) chain_id
