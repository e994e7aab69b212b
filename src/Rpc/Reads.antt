-- ===== src/Rpc/Reads.antt =====
-- src/rpc/reads.rs with `parse_u64_hex` of src/rpc.rs: what the read calls make of a request's result, and the
-- loop that waits for a receipt. The calls' JSON parameters are not modelled.
use fast_wallet.Base.{
  ℕ, suc, ◌+◌, ◌-◌, ◌*◌, Bool, ◌&&◌, List, [], ◌∷◌, Option, none, some, ltb, leb, ◌==◌,
  if◌then◌else◌, ◌⊎◌, inl, inr, u64_mod, is_some,
}
use fast_wallet.Errors.{Message, rpc_error, timeout, WalletResult, ok, err, ◌>>=◌}
use fast_wallet.Errors.Text.{codes}
use fast_wallet.Rpc.Client.{Value}
use fast_wallet.Rpc.Send.{is_text, without_0x}

-- One hexadecimal digit.
abbrev pub hex_digit : ℕ → Option ℕ
hex_digit c =
    if leb 48 c && leb c 57
    then some (c - 48)
    else if leb 97 c && leb c 102
    then some (c - 87)
    else if leb 65 c && leb c 70
    then some (c - 55)
    else none

-- The standard library's errors of `from_str_radix`, by their texts.
abbrev pub Parsed : Type 0
Parsed = WalletResult ℕ

abbrev pub invalid_digit : Parsed
invalid_digit = err (rpc_error (codes "invalid digit found in string"))

-- The digits behind `n`; each step multiplies and adds with a check for overflow.
unfoldable pub from_hex_digits : ℕ → Message → Parsed
from_hex_digits n [] = ok n
from_hex_digits n (c ∷ s) = elim (hex_digit c) [
  | none ↦ invalid_digit
  | some d ↦
      (let rest = from_hex_digits (n * 16 + d) s in
        if ltb (n * 16 + d) u64_mod
        then rest
        else err (rpc_error (codes "number too large to fit in target type")))
]

-- `u64::from_str_radix(s, 16)`: a plus sign may stand before the digits.
unfoldable pub from_str_radix_16 : Message → Parsed
unfolding from_hex_digits
from_str_radix_16 [] = err (rpc_error (codes "cannot parse integer from empty string"))
from_str_radix_16 (c ∷ []) = if c == 43 then invalid_digit else from_hex_digits 0 (c ∷ [])
from_str_radix_16 (c ∷ d ∷ s) = from_hex_digits 0 (if c == 43 then d ∷ s else c ∷ d ∷ s)

unfoldable pub parse_u64_hex : Message → WalletResult ℕ
unfolding without_0x from_str_radix_16
parse_u64_hex s = from_str_radix_16 (without_0x s)

-- `get_nonce`, `get_nonce_latest`, `block_number`, `chain_id` and `estimate_gas`, which differ in what they ask.
unfoldable pub read_u64 : WalletResult Message → WalletResult ℕ
unfolding parse_u64_hex
read_u64 reply = reply >>= λ result. parse_u64_hex result

unfoldable pub tx_exists : WalletResult (Option Value) → WalletResult Bool
tx_exists reply = reply >>= λ result. ok (is_some result)

-- A null result, which the request reports as an empty response, is a receipt not there yet.
unfoldable pub get_transaction_receipt : WalletResult Value → WalletResult (Option Value)
get_transaction_receipt (ok receipt) = ok (some receipt)
get_transaction_receipt (err (rpc_error msg)) =
    if is_text msg (codes "Empty response") then ok none else err (rpc_error msg)
get_transaction_receipt (err e) = err e

abbrev pub max_consecutive_receipt_errors : ℕ
max_consecutive_receipt_errors = 3

-- A round of the loop: the time that has passed when it starts, and what its request gives.
abbrev pub Poll : Type 0
Poll = ℕ × WalletResult Value

-- What a poll's receipt does to the count of errors, or the end of the wait.
unfoldable pub poll_step : ℕ → WalletResult (Option Value) → ℕ ⊎ WalletResult Value
poll_step errors (ok (some receipt)) = inr (ok receipt)
poll_step errors (ok none) = inl 0
poll_step errors (err e) =
    if leb max_consecutive_receipt_errors (suc errors) then inr (err e) else inl (suc errors)

-- The loop over the polls that are made; `none` when they are used up and the wait goes on.
unfoldable pub wait_from : ℕ → ℕ → List Poll → Option (WalletResult Value)
unfolding poll_step get_transaction_receipt
wait_from time_limit errors [] = none
wait_from time_limit errors ((elapsed, reply) ∷ polls) =
    if ltb time_limit elapsed
    then some (err timeout)
    else elim (poll_step errors (get_transaction_receipt reply)) [
      | inr result ↦ some result
      | inl errors' ↦ wait_from time_limit errors' polls
    ]

unfoldable pub wait_for_receipt : ℕ → List Poll → Option (WalletResult Value)
unfolding wait_from
wait_for_receipt time_limit polls = wait_from time_limit 0 polls

-- `U256::from_str_radix` is another crate's: a number, or the text of its error.
module _ (radix_16 : Message → Message ⊎ ℕ) where
  unfoldable pub parse_u256_hex : Message → WalletResult ℕ
  unfolding without_0x
  parse_u256_hex s = elim (radix_16 (without_0x s)) [
    | inl text ↦ err (rpc_error text)
    | inr n ↦ ok n
  ]

  -- `get_balance`, `gas_price` and `max_priority_fee`.
  unfoldable pub read_u256 : WalletResult Message → WalletResult ℕ
  unfolding parse_u256_hex
  read_u256 reply = reply >>= λ result. parse_u256_hex result

-- What `call` and `call_with_overrides` make of the result, over the hex crate's decoding.
unfoldable pub read_bytes :
    (Message → Message ⊎ List ℕ) → WalletResult Message → WalletResult (List ℕ)
unfolding without_0x
read_bytes decode reply = reply >>= λ result. elim (decode (without_0x result)) [
  | inl text ↦ err (rpc_error text)
  | inr bytes ↦ ok bytes
]
