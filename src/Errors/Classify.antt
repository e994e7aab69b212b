-- ===== src/Errors/Classify.antt =====
-- What the wallet reads out of an error: whether every endpoint refused the bytes for good
-- (src/wallet.rs), whether a verdict is the forwarder's transport, and which block the nonce is to be
-- synced with (src/error/broadcast.rs).
use fast_wallet.Base.{
  Bool, true, false, not, ◌&&◌, ◌||◌, List, [], ◌∷◌, ◌++◌, map, all, keep, Option, some, none,
  if◌then◌else◌,
}
use fast_wallet.Errors.{
  Message, EndpointFailureClass, transport, rejection, EndpointVerdict, BroadcastFailure,
  WalletError, broadcast_failed, rpc_error, network_error, http_error, transaction_underpriced,
  insufficient_funds, gas_limit_exceeded, send_timeout, timeout,
  all_endpoints_rejected_definitively, ambiguous_broadcast_failure,
}
use fast_wallet.Errors.Text.{
  codes, strip_prefix, starts_with, contains, contains_any, split_once, lowercase,
}
use fast_wallet.Errors.Display.{to_string}

abbrev pub forwarder_transport_phrases : List Message
forwarder_transport_phrases =
    codes "context deadline exceeded"
    ∷ codes "client.timeout exceeded"
    ∷ codes "dial tcp"
    ∷ codes "connection refused"
    ∷ codes "i/o timeout"
    ∷ codes "failsafe timeout policy exceeded"
    ∷ codes "upstreams exhausted"
    ∷ []

abbrev pub fee_floor_rejection_phrases : List Message
fee_floor_rejection_phrases =
    codes "max fee per gas less than block base fee"
    ∷ codes "fee cap less than block base fee"
    ∷ codes "max fee per gas too low"
    ∷ codes "gas price below minimum"
    ∷ []

abbrev pub node_rejection_phrases : List Message
node_rejection_phrases =
    codes "gas required exceeds allowance"
    ∷ codes "insufficient funds"
    ∷ codes "nonce"
    ∷ codes "already known"
    ∷ codes "already-known"
    ∷ codes "known transaction"
    ∷ []

-- The arrays that `is_definitive_precheck_rejection` declares.
abbrev pub ambiguous_markers : List Message
ambiguous_markers =
    codes "already known"
    ∷ codes "known transaction"
    ∷ codes "underpriced"
    ∷ codes "fee too low"
    ∷ codes "timeout"
    ∷ codes "connection"
    ∷ codes "network"
    ∷ codes "temporarily"
    ∷ codes "nonce too high"
    ∷ codes "nonce too low"
    ∷ codes "decoding response"
    ∷ codes "bad gateway"
    ∷ codes "upstream"
    ∷ []

abbrev pub definitive_markers : List Message
definitive_markers =
    codes "execution reverted"
    ∷ codes "insufficient funds for gas"
    ∷ codes "insufficient funds"
    ∷ codes "exceeds block gas limit"
    ∷ codes "exceed block gas limit"
    ∷ codes "intrinsic gas too high"
    ∷ codes "invalid sender"
    ∷ codes "tx type not supported"
    ∷ codes "transaction type not supported"
    ∷ []

unfoldable pub matches_fee_or_gas_precheck : Message → Bool
matches_fee_or_gas_precheck message =
    if contains (codes "post \"") message || contains_any forwarder_transport_phrases message
    then false
    else contains_any
        (codes "intrinsic gas too low"
          ∷ codes "exceeds the configured cap"
          ∷ fee_floor_rejection_phrases)
        message

-- `lower.strip_prefix("rpc error ").and_then(split_once(": "))`, or all of it.
abbrev body_of : Message → Message
body_of lower = elim (strip_prefix (codes "rpc error ") lower) [
  | none ↦ lower
  | some rest ↦ elim (split_once (codes ": ") rest) [ some (code, body) ↦ body | none ↦ lower ]
]

unfoldable pub is_forwarder_transport_error : Message → Bool
is_forwarder_transport_error message =
    let lower = lowercase message in
    if contains_any (node_rejection_phrases ++ fee_floor_rejection_phrases) lower
    then false
    else starts_with (codes "post \"") (body_of lower)
      || contains_any forwarder_transport_phrases lower

-- The class that `EndpointVerdict::new` gives.
unfoldable pub failure_class : WalletError → EndpointFailureClass
failure_class (network_error s) = transport
failure_class timeout = transport
failure_class (send_timeout elapsed_ms) = transport
failure_class (rpc_error message) =
    if is_forwarder_transport_error message then transport else rejection
failure_class _ = rejection

-- `verdict.class == EndpointFailureClass::Rejection`.
abbrev pub is_rejection : EndpointFailureClass → Bool
is_rejection transport = false
is_rejection rejection = true

-- The end of `is_definitive_precheck_rejection`, which reads the error's text.
unfoldable pub is_definitive_text : Message → Bool
unfolding matches_fee_or_gas_precheck
is_definitive_text text =
    let message = lowercase text in
    if contains_any ambiguous_markers message
    then false
    else contains_any definitive_markers message || matches_fee_or_gas_precheck message

-- The classifier at a verdict of a broadcast, whose error is classified as an `RpcError`.
unfoldable pub is_definitive_verdict : EndpointVerdict → Bool
unfolding is_definitive_text
is_definitive_verdict v =
    is_rejection v.class && is_definitive_text (codes "RPC error: " ++ v.error)

abbrev pub is_empty {ℓ} : {A : Type ℓ} → List A → Bool
is_empty [] = true
is_empty (x ∷ xs) = false

module _ (json : BroadcastFailure → Message) where
  unfoldable pub is_definitive_precheck_rejection : WalletError → Bool
  unfolding is_definitive_verdict is_definitive_text to_string
  is_definitive_precheck_rejection insufficient_funds = true
  is_definitive_precheck_rejection gas_limit_exceeded = true
  is_definitive_precheck_rejection (all_endpoints_rejected_definitively s) = true
  is_definitive_precheck_rejection (broadcast_failed failure) =
      not (is_empty failure.endpoints) && all is_definitive_verdict failure.endpoints
  is_definitive_precheck_rejection (ambiguous_broadcast_failure s) = false
  is_definitive_precheck_rejection timeout = false
  is_definitive_precheck_rejection (network_error s) = false
  is_definitive_precheck_rejection (http_error s) = false
  is_definitive_precheck_rejection transaction_underpriced = false
  is_definitive_precheck_rejection error = is_definitive_text (to_string json error)

-- `join("\n")`.
abbrev pub join_lines : List Message → Message
join_lines [] = []
join_lines (s ∷ []) = s
join_lines (s ∷ t ∷ rest) = s ++ 10 ∷ join_lines (t ∷ rest)

pub data SyncBlock : Type 0 where
  pending latest : SyncBlock

module _ (json : BroadcastFailure → Message) where
  -- The text that `nonce_sync_block` reads.
  unfoldable pub sync_text : WalletError → Message
  unfolding to_string
  sync_text (broadcast_failed failure) =
      lowercase
        (join_lines (map (λ v. v.error) (keep (λ v. is_rejection v.class) failure.endpoints)))
  sync_text error = lowercase (to_string json error)

  unfoldable pub nonce_sync_block : WalletError → Option SyncBlock
  unfolding sync_text
  nonce_sync_block error =
      let text = sync_text error in
      if contains (codes "nonce too low") text
      then some pending
      else if contains (codes "nonce too high") text
      then some latest
      else none
