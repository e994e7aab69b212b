-- ===== src/Transaction/Standards.antt =====
-- RLP's list rule, and the transaction lists of EIP-155, EIP-2718, EIP-2930 and EIP-1559: what the
-- encoders are held to.
use fast_wallet.Base.{
  ℕ, ◌+◌, ◌*◌, ◌≡◌, Bool, false, List, [], ◌∷◌, ◌++◌, map, length, Option, none, some, ◌==◌,
}
use fast_wallet.Transaction.{
  Bytes, AccessListItem, TypedTransaction, legacy, eip2930, eip1559, RecoverableSignature,
}
use fast_wallet.Transaction.Rlp.{Rlp}
use fast_wallet.Transaction.Encode.{written}

-- RLP's list: a header for the length of the items together, and the items.
abbrev pub rlp_list : Rlp → List Bytes → Bytes
rlp_list R items = R.list_header (length (written items)) ++ written items

-- EIP-2930's item: the address, and the list of the storage keys.
abbrev pub item_spec : Rlp → AccessListItem → Bytes
item_spec R item =
    rlp_list R (R.fixed item.address ∷ rlp_list R (map R.fixed item.storage_keys) ∷ [])

abbrev pub access_spec : Rlp → List AccessListItem → Bytes
access_spec R items = rlp_list R (map (item_spec R) items)

-- The recipient: an address is a string of its bytes, and its absence the empty string, whose encoding is one byte.
abbrev pub recipient_spec : Rlp → Option Bytes → Bytes
recipient_spec R (some address) = R.fixed address
recipient_spec R none = 0x80 ∷ []

-- The number that bytes write, the most significant first, behind `n`.
unfoldable pub be_value : ℕ → Bytes → ℕ
be_value n [] = n
be_value n (b ∷ bs) = be_value (n * 256 + b) bs

unfoldable pub leading_zero : Bytes → Bool
leading_zero [] = false
leading_zero (b ∷ bs) = b == 0

-- RLP writes a number as the string of its bytes with no leading zero.
abbrev pub IsMinimal : Bytes → Bytes → Type 0
IsMinimal word bytes = (be_value 0 bytes ≡ be_value 0 word) × (leading_zero bytes ≡ false)

-- The items of the list to sign, as the standards give them: EIP-155 for the legacy form. `access`
-- encodes an access list, `recipient` a recipient.
abbrev pub signing_items :
    Rlp → (List AccessListItem → Bytes) → (Option Bytes → Bytes) → TypedTransaction → List Bytes
signing_items R access recipient (legacy tx) =
    R.uint tx.nonce
    ∷ R.uint tx.gas_price
    ∷ R.uint tx.gas_limit
    ∷ recipient tx.to
    ∷ R.uint tx.value
    ∷ R.string tx.payload
    ∷ R.uint tx.chain_id
    ∷ R.uint 0
    ∷ R.uint 0
    ∷ []
signing_items R access recipient (eip2930 tx) =
    R.uint tx.chain_id
    ∷ R.uint tx.nonce
    ∷ R.uint tx.gas_price
    ∷ R.uint tx.gas_limit
    ∷ recipient tx.to
    ∷ R.uint tx.value
    ∷ R.string tx.payload
    ∷ access tx.access_list
    ∷ []
signing_items R access recipient (eip1559 tx) =
    R.uint tx.chain_id
    ∷ R.uint tx.nonce
    ∷ R.uint tx.max_priority_fee_per_gas
    ∷ R.uint tx.max_fee_per_gas
    ∷ R.uint tx.gas_limit
    ∷ recipient tx.to
    ∷ R.uint tx.value
    ∷ R.string tx.payload
    ∷ access tx.access_list
    ∷ []

-- The bytes of the signature's two numbers are given.
abbrev pub signature_items : Rlp → ℕ → Bytes → Bytes → List Bytes
signature_items R v r s = R.uint v ∷ R.string r ∷ R.string s ∷ []

-- The items of the signed list: the signature's stand last, for EIP-155's last three or behind all.
abbrev pub signed_items :
    Rlp
    → (List AccessListItem → Bytes)
    → (Option Bytes → Bytes)
    → TypedTransaction
    → ℕ
    → Bytes
    → Bytes
    → List Bytes
signed_items R access recipient (legacy tx) v r s =
    R.uint tx.nonce
    ∷ R.uint tx.gas_price
    ∷ R.uint tx.gas_limit
    ∷ recipient tx.to
    ∷ R.uint tx.value
    ∷ R.string tx.payload
    ∷ signature_items R v r s
signed_items R access recipient (eip2930 tx) v r s =
    R.uint tx.chain_id
    ∷ R.uint tx.nonce
    ∷ R.uint tx.gas_price
    ∷ R.uint tx.gas_limit
    ∷ recipient tx.to
    ∷ R.uint tx.value
    ∷ R.string tx.payload
    ∷ access tx.access_list
    ∷ signature_items R v r s
signed_items R access recipient (eip1559 tx) v r s =
    R.uint tx.chain_id
    ∷ R.uint tx.nonce
    ∷ R.uint tx.max_priority_fee_per_gas
    ∷ R.uint tx.max_fee_per_gas
    ∷ R.uint tx.gas_limit
    ∷ recipient tx.to
    ∷ R.uint tx.value
    ∷ R.string tx.payload
    ∷ access tx.access_list
    ∷ signature_items R v r s

-- EIP-2718's envelope: the type byte of the form before the list, and none for a legacy transaction.
abbrev pub envelope : TypedTransaction → Bytes → Bytes
envelope (legacy tx) list = list
envelope (eip2930 tx) list = 0x01 ∷ list
envelope (eip1559 tx) list = 0x02 ∷ list

-- The bytes are the envelope of the list of the standards' items under the signature, each of whose two numbers is
-- written without leading zeros.
abbrev pub Standard : Rlp → TypedTransaction → RecoverableSignature → Bytes → Type 0
Standard R tx sig bytes =
    (r s : Bytes) × IsMinimal sig.r r
    × IsMinimal sig.s s
    × (bytes
        ≡ envelope tx (rlp_list R (signed_items R (access_spec R) (recipient_spec R) tx sig.v r s)))
