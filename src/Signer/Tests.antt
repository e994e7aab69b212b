-- ===== src/Signer/Tests.antt =====
-- Runs of the signer, and its theorems at concrete inputs. The key's point and its signatures are constants here.
use fast_wallet.Base.{ℕ, ◌≡◌, ◌≢◌, refl, [], ◌∷◌, ◌++◌, inl, inr, none, some, length, arith}
use fast_wallet.Errors.{invalid_private_key, no_credentials_dir, ok, err}
use fast_wallet.Errors.Text.{codes, strip_prefix}
use fast_wallet.Transaction.{Bytes, LegacyTransaction, legacy}
use fast_wallet.Transaction.Rlp.{Rlp}
use fast_wallet.Transaction.Forms.{encode_for_signing}
use fast_wallet.Transaction.Sign.{signature}
use fast_wallet.Signer.{
  Keys, FastSigner, credential, Process, from_hex, from_source, prefixed, sign_message,
}
use fast_wallet.Signer.Personal.{MarksLists, message_is_no_transaction, prefixed_distinct}
use fast_wallet.Signer.Hex.{encode, encode_prefixed, read_pairs, decode_hex-encode}

abbrev list_rlp : Rlp
list_rlp = record {
  uint = λ n. n ∷ [];
  uint_length = λ n. 1;
  string = λ b. b;
  string_length = λ b. length b;
  fixed = λ b. b;
  fixed_length = λ b. length b;
  list_header = λ n. 0xf8 ∷ n ∷ [];
  length_of_length = λ n. 2;
}

list_rlp-MarksLists : MarksLists list_rlp
list_rlp-MarksLists n = (0xf8, n ∷ [], refl, omega arith)

abbrev bytes : ℕ → Bytes
bytes b = b ∷ b ∷ b ∷ b ∷ b ∷ b ∷ b ∷ b ∷ []

abbrev word : Bytes
word = bytes 1 ++ (bytes 2 ++ (bytes 3 ++ bytes 4))

-- Every text decodes to its own bytes.
abbrev keys : Keys
keys = record {
  decode = λ s. inr s;
  keccak256 = λ b. word;
  rlp = list_rlp;
  public_key = λ k. inr (4 ∷ k);
  sign_prehash = λ k h. signature (word ++ word) 1;
}

key_run :
    from_hex keys (codes "0x" ++ word)
    ≡ ok (record { signing_key = word; address = 2 ∷ 2 ∷ 2 ∷ 2 ∷ (bytes 3 ++ bytes 4) })
unfolding from_hex strip_prefix
key_run = refl

short_run :
    from_hex keys (codes "0xab") ≡ err (invalid_private_key (codes "Expected 32 bytes, got 2"))
unfolding from_hex strip_prefix
short_run = refl

abbrev bare : Process
bare = record { credentials_directory = none; read_to_string = λ d n. inl [] }

no_directory_run : from_source keys bare (credential (codes "key")) ≡ err no_credentials_dir
unfolding from_source
no_directory_run = refl

abbrev signer : FastSigner
signer = record { signing_key = word; address = bytes 1 }

message_run : sign_message keys signer (codes "hi") 1 ≡ ok (record { r = word; s = word; v = 38 })
unfolding sign_message
message_run = refl

abbrev payment : LegacyTransaction
payment = record {
  nonce = 3;
  gas_price = 1;
  gas_limit = 21_000;
  to = some (bytes 7);
  value = 5;
  payload = [];
  chain_id = 1;
}

message_is_no_transaction_example :
    prefixed (codes "hi") ≢ encode_for_signing list_rlp (legacy payment)
message_is_no_transaction_example =
    message_is_no_transaction list_rlp (codes "hi") (legacy payment) list_rlp-MarksLists

two_messages : codes "hi" ≢ codes "12"
two_messages h = cc

prefixed_distinct_case : prefixed (codes "hi") ≢ prefixed (codes "12")
prefixed_distinct_case = prefixed_distinct (codes "hi") (codes "12") two_messages

hex_run : encode_prefixed (0 ∷ 26 ∷ 255 ∷ []) ≡ codes "0x001aff"
unfolding encode_prefixed
hex_run = refl

hex_case : read_pairs (encode (0 ∷ 26 ∷ 255 ∷ [])) ≡ some (0 ∷ 26 ∷ 255 ∷ [])
hex_case = (decode_hex-encode (λ s. inr s) (0 ∷ 26 ∷ 255 ∷ []) refl).2
