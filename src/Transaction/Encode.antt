-- ===== src/Transaction/Encode.antt =====
-- The encoders. Each returns the bytes that it appends to its buffer, in the order of the writes; the
-- thread-local buffer of the source is cleared before each use.
use fast_wallet.Base.{ℕ, ◌+◌, List, [], ◌∷◌, ◌++◌, map, Option, none, some, ◌==◌, if◌then◌else◌}
use fast_wallet.Transaction.{Bytes, AccessListItem}
use fast_wallet.Transaction.Rlp.{Rlp}

-- A row of writes.
abbrev pub written : List Bytes → Bytes
written [] = []
written (b ∷ bs) = b ++ written bs

-- `iter().map(length).sum()`.
abbrev pub sum : List ℕ → ℕ
sum [] = 0
sum (n ∷ ns) = n + sum ns

-- The bytes from the first that is not zero on.
unfoldable pub canonical_signature_scalar_bytes : Bytes → Bytes
canonical_signature_scalar_bytes [] = []
canonical_signature_scalar_bytes (b ∷ bs) =
    if b == 0 then canonical_signature_scalar_bytes bs else b ∷ bs

module _ (R : Rlp) where
  unfoldable pub encode_item : AccessListItem → Bytes
  encode_item item =
      let storage_len = sum (map R.fixed_length item.storage_keys) in
      let storage_header_len = R.length_of_length storage_len in
      let list_len = R.fixed_length item.address + storage_header_len + storage_len in
      written (
        R.list_header list_len
        ∷ R.fixed item.address
        ∷ R.list_header storage_len
        ∷ written (map R.fixed item.storage_keys)
        ∷ [])

  unfoldable pub length_item : AccessListItem → ℕ
  length_item item =
      let storage_len = sum (map R.fixed_length item.storage_keys) in
      let storage_header_len = R.length_of_length storage_len in
      let list_len = R.fixed_length item.address + storage_header_len + storage_len in
      R.length_of_length list_len + list_len

  unfoldable pub encode_to : Option Bytes → Bytes
  encode_to (some addr) = R.fixed addr
  encode_to none = 0x80 ∷ []

  unfoldable pub to_length : Option Bytes → ℕ
  to_length (some addr) = R.fixed_length addr
  to_length none = 1

  unfoldable pub encode_access_list : List AccessListItem → Bytes
  unfolding encode_item length_item
  encode_access_list items =
      R.list_header (sum (map length_item items)) ++ written (map encode_item items)

  unfoldable pub access_list_length : List AccessListItem → ℕ
  unfolding length_item
  access_list_length items =
      let inner_len = sum (map length_item items) in R.length_of_length inner_len + inner_len

  unfoldable pub encode_signature_scalar : Bytes → Bytes
  unfolding canonical_signature_scalar_bytes
  encode_signature_scalar value = R.string (canonical_signature_scalar_bytes value)

  unfoldable pub signature_scalar_length : Bytes → ℕ
  unfolding canonical_signature_scalar_bytes
  signature_scalar_length value = R.string_length (canonical_signature_scalar_bytes value)
