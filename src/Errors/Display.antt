-- ===== src/Errors/Display.antt =====
-- The text of an error: the `Display` that src/error.rs derives, and `write!` of src/error/broadcast.rs.
-- serde_json is another crate: the JSON of a failure is a parameter.
use fast_wallet.Base.{ℕ, zero, suc, ◌+◌, ◌/◌, ◌%◌, [], ◌∷◌, ◌++◌, ltb, if◌then◌else◌}
use fast_wallet.Errors.{
  Message, BroadcastFailure, WalletError, broadcast_failed, invalid_private_key, invalid_address,
  signing_error, rpc_error, nonce_error, encoding_error, network_error, hex_error, json_error,
  http_error, invalid_chain_id, nonce_too_low, transaction_underpriced, insufficient_funds,
  gas_limit_exceeded, send_timeout, timeout, all_endpoints_rejected_definitively,
  ambiguous_broadcast_failure, invalid_config, no_credentials_dir, credential_error,
}
use fast_wallet.Errors.Text.{codes}

-- A u64 has at most 20 digits.
abbrev pub decimal_from : ℕ → ℕ → Message → Message
decimal_from zero n rest = rest
decimal_from (suc fuel) n rest =
    let digits : Message = (48 + n % 10) ∷ rest in
    let more = decimal_from fuel (n / 10) digits in if ltb n 10 then digits else more

abbrev pub decimal : ℕ → Message
decimal n = decimal_from 20 n []

unfoldable pub to_string : (BroadcastFailure → Message) → WalletError → Message
to_string json (broadcast_failed failure) = codes "All broadcast endpoints failed: " ++ json failure
to_string json (invalid_private_key s) = codes "Invalid private key: " ++ s
to_string json (invalid_address s) = codes "Invalid address: " ++ s
to_string json (signing_error s) = codes "Signing error: " ++ s
to_string json (rpc_error s) = codes "RPC error: " ++ s
to_string json (nonce_error s) = codes "Nonce error: " ++ s
to_string json (encoding_error s) = codes "Transaction encoding error: " ++ s
to_string json (network_error s) = codes "Network error: " ++ s
to_string json (hex_error s) = codes "Hex decoding error: " ++ s
to_string json (json_error s) = codes "JSON error: " ++ s
to_string json (http_error s) = codes "HTTP error: " ++ s
to_string json (invalid_chain_id id) = codes "Invalid chain ID: " ++ decimal id
to_string json (nonce_too_low expected got) =
    codes "Nonce too low: expected " ++ decimal expected ++ codes ", got " ++ decimal got
to_string json transaction_underpriced = codes "Transaction underpriced"
to_string json insufficient_funds = codes "Insufficient funds"
to_string json gas_limit_exceeded = codes "Gas limit exceeded"
to_string json (send_timeout elapsed_ms) =
    codes "timeout after " ++ decimal elapsed_ms ++ codes " ms"
to_string json timeout = codes "Transaction timeout"
to_string json (all_endpoints_rejected_definitively s) =
    codes "All endpoints rejected definitively: " ++ s
to_string json (ambiguous_broadcast_failure s) = codes "Broadcast failed ambiguously: " ++ s
to_string json (invalid_config s) = codes "Invalid wallet configuration: " ++ s
to_string json no_credentials_dir =
    codes "CREDENTIALS_DIRECTORY not set (not running under systemd credential delivery)"
to_string json (credential_error s) = codes "Credential read error: " ++ s
