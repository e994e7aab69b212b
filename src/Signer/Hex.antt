-- ===== src/Signer/Hex.antt =====
-- `fast_hex` of src/crypto.rs: two digits for each byte. Decoding is the hex crate's.
use fast_wallet.Base.{
  ℕ, ◌+◌, ◌*◌, ◌/◌, ◌%◌, ◌<◌, ◌≡◌, refl, ap, Bool, true, false, [], ◌∷◌, ◌++◌, ◌⊎◌, ltb, ◌==◌,
  if◌then◌else◌, Option, none, some, all, and_left, and_right, Bool-cases, inl, inr, arith,
}
use fast_wallet.Errors.{Message}
use fast_wallet.Errors.Text.{codes, strip_prefix}
use fast_wallet.Transaction.{Bytes}
use fast_wallet.Rpc.Send.{without_0x}
use fast_wallet.Rpc.Reads.{hex_digit}

-- The entry of the table "0123456789abcdef".
abbrev pub hex_char : ℕ → ℕ
hex_char d = if ltb d 10 then 48 + d else 87 + d

unfoldable pub encode : Bytes → Message
encode [] = []
encode (b ∷ bytes) = hex_char (b / 16) ∷ hex_char (b % 16) ∷ encode bytes

unfoldable pub encode_prefixed : Bytes → Message
unfolding encode
encode_prefixed bytes = codes "0x" ++ encode bytes

-- `decode`, over the crate's.
unfoldable pub decode_hex : (Message → Message ⊎ Bytes) → Message → Message ⊎ Bytes
unfolding without_0x
decode_hex decode s = decode (without_0x s)

-- Reading two digits for a byte.
abbrev pub byte_of : Option ℕ → Option ℕ → Option Bytes → Option Bytes
byte_of (some h) (some l) (some bytes) = some ((h * 16 + l) ∷ bytes)
byte_of _ _ _ = none

abbrev pub read_pairs : Message → Option Bytes
read_pairs [] = some []
read_pairs (h ∷ []) = none
read_pairs (h ∷ l ∷ s) = byte_of (hex_digit h) (hex_digit l) (read_pairs s)

abbrev pub is_byte : ℕ → Bool
is_byte b = ltb b 256

hex_digit-hex_char : (d : ℕ) → d < 16 → hex_digit (hex_char d) ≡ some d
hex_digit-hex_char d h = ground arith

read_pairs-encode :
    (bytes : Bytes) → all is_byte bytes ≡ true → read_pairs (encode bytes) ≡ some bytes
unfolding encode
read_pairs-encode [] h = refl
read_pairs-encode (b ∷ bytes) h =
    let byte = and_left (is_byte b) (all is_byte bytes) h in
    let small : b < 256 = ground arith in
    let rest = read_pairs-encode bytes (and_right (is_byte b) (all is_byte bytes) h) in
    let whole : b / 16 * 16 + b % 16 ≡ b = omega arith in
    rw
      (
        hex_digit-hex_char (b / 16) (omega arith),
        hex_digit-hex_char (b % 16) (omega arith),
        rest,
        whole,
      )
      refl

not_x : (d : ℕ) → d < 16 → (120 == hex_char d) ≡ false
not_x d h = ground arith

-- Encoded bytes do not begin with the prefix: an `x` is no digit.
without_0x-encode : (bytes : Bytes) → without_0x (encode bytes) ≡ encode bytes
unfolding without_0x strip_prefix encode
without_0x-encode [] = refl
without_0x-encode (b ∷ bytes) =
    let second = not_x (b % 16) (omega arith) in
    elim (Bool-cases (48 == hex_char (b / 16))) [
      | inl zero_first ↦ rw (zero_first, second) refl
      | inr other_first ↦ rw other_first refl
    ]

-- The encoding of bytes, with the prefix or without, has the hex crate decode the same text, in which each pair
-- of digits reads as the byte that it encodes, and which nothing else follows.
pub decode_hex-encode :
    (decode : Message → Message ⊎ Bytes) (bytes : Bytes)
    → all is_byte bytes ≡ true
    → (decode_hex decode (encode_prefixed bytes) ≡ decode (encode bytes))
      × (decode_hex decode (encode bytes) ≡ decode (encode bytes))
      × (read_pairs (encode bytes) ≡ some bytes)
unfolding decode_hex encode_prefixed without_0x strip_prefix
decode_hex-encode decode bytes h =
    (refl, ap decode (without_0x-encode bytes), read_pairs-encode bytes h)
