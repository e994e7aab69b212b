-- ===== src/Errors/Parse.antt =====
-- The nonce that a node reports in a "nonce too low" error: the parsers of src/error.rs. White space is
-- ASCII's.
use fast_wallet.Base.{
  ℕ, ◌+◌, ◌-◌, ◌*◌, Bool, ◌&&◌, [], ◌∷◌, Option, none, some, all, leb, ltb, if◌then◌else◌, u64_mod,
}
use fast_wallet.Errors.{Message, WalletError, rpc_error}
use fast_wallet.Errors.Text.{codes, strip_prefix, split_once, after_last, trim}

abbrev pub is_ascii_digit : ℕ → Bool
is_ascii_digit c = leb 48 c && leb c 57

-- The number that digits write behind `n`.
unfoldable pub digits_value : ℕ → Message → ℕ
digits_value n [] = n
digits_value n (c ∷ s) = digits_value (n * 10 + (c - 48)) s

-- `u64::from_str` on digits.
unfoldable pub parse_u64 : Message → Option ℕ
unfolding digits_value
parse_u64 s = if ltb (digits_value 0 s) u64_mod then some (digits_value 0 s) else none

unfoldable pub parse_decimal : Message → Option ℕ
unfolding parse_u64
parse_decimal [] = none
parse_decimal (c ∷ s) = if all is_ascii_digit (c ∷ s) then parse_u64 (c ∷ s) else none

-- `?` on options.
infixl 5 ◌then_some◌
abbrev pub ◌then_some◌ {ℓ κ} : {A : Type ℓ} {B : Type κ} → Option A → (A → Option B) → Option B
none then_some f = none
some a then_some f = f a

unfoldable pub nonce_too_low_details : Message → Option Message
nonce_too_low_details message = after_last (codes "nonce too low: ") message

abbrev non_empty : Message → Option Message
non_empty [] = none
non_empty (c ∷ s) = some (c ∷ s)

unfoldable pub parse_arbitrum_nonce : Message → Option ℕ
unfolding parse_decimal
parse_arbitrum_nonce details =
    split_once (codes ", tx: ") details then_some λ (address, tx_and_state).
    split_once (codes " state: ") tx_and_state then_some λ (tx_nonce, state_nonce).
    strip_prefix (codes "address 0x") address then_some λ digits.
    non_empty (trim digits) then_some λ some_digits.
    parse_decimal tx_nonce then_some λ tx. parse_decimal state_nonce

unfoldable pub parse_geth_nonce : Message → Option ℕ
unfolding parse_decimal
parse_geth_nonce details = strip_prefix (codes "next nonce ") details then_some λ rest.
    split_once (codes ", tx nonce ") rest then_some λ (state_nonce, tx_nonce).
    parse_decimal tx_nonce then_some λ tx. parse_decimal state_nonce

-- `or_else`.
abbrev or_else {ℓ} : {A : Type ℓ} → Option A → Option A → Option A
or_else none b = b
or_else (some a) b = some a

unfoldable pub parse_nonce_too_low : Message → Option ℕ
unfolding nonce_too_low_details parse_arbitrum_nonce parse_geth_nonce
parse_nonce_too_low message = nonce_too_low_details message then_some λ found.
    let details = trim found in or_else (parse_arbitrum_nonce details) (parse_geth_nonce details)

unfoldable pub authoritative_nonce : WalletError → Option ℕ
unfolding parse_nonce_too_low
authoritative_nonce (rpc_error message) = parse_nonce_too_low message
authoritative_nonce _ = none
