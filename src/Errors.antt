-- ===== src/Errors.antt =====
-- src/error.rs and src/error/broadcast.rs: the error type, and what the wallet reads out of an error.
pub mod Text
pub mod Display
pub mod Classify
pub mod Parse
pub mod Digits
pub mod RoundTrip
pub mod Needles
pub mod Release
mod Tests
use fast_wallet.Base.{ℕ, List}

-- A text, by its bytes.
abbrev pub Message : Type 0
Message = List ℕ

pub data EndpointFailureClass : Type 0 where
  transport rejection : EndpointFailureClass

pub record EndpointVerdict : Type 0 where
  pub host : Message
  pub error : Message
  pub elapsed_ms : ℕ
  pub class : EndpointFailureClass

pub record BroadcastFailure : Type 0 where
  pub endpoints : List EndpointVerdict

-- The errors of other crates stand as their texts.
pub data WalletError : Type 0 where
  broadcast_failed : BroadcastFailure → WalletError
  invalid_private_key invalid_address signing_error rpc_error nonce_error encoding_error
        network_error hex_error json_error http_error :
      Message → WalletError
  invalid_chain_id : ℕ → WalletError
  nonce_too_low : (expected got : ℕ) → WalletError
  transaction_underpriced insufficient_funds gas_limit_exceeded : WalletError
  send_timeout : (elapsed_ms : ℕ) → WalletError
  timeout : WalletError
  all_endpoints_rejected_definitively ambiguous_broadcast_failure invalid_config :
      Message → WalletError
  no_credentials_dir : WalletError
  credential_error : Message → WalletError

pub data WalletResult {ℓ} (A : Type ℓ) : Type ℓ where
  ok : A → WalletResult A
  err : WalletError → WalletResult A

-- `?`.
infixl 5 ◌>>=◌
abbrev pub ◌>>=◌ {ℓ κ} :
    {A : Type ℓ} {B : Type κ} → WalletResult A → (A → WalletResult B) → WalletResult B
ok a >>= f = f a
err e >>= f = err e
