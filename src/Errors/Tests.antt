-- ===== src/Errors/Tests.antt =====
-- The source's tests of the parsers and of the classifiers, and the theorems at concrete errors. The
-- JSON of a failure is a fixed text here.
use fast_wallet.Errors.Display.{decimal}
use fast_wallet.Errors.RoundTrip.{geth_details, parse-geth}
use fast_wallet.Base.{
  ℕ, ◌<◌, ◌≡◌, ◌↔◌, refl, true, false, [], ◌∷◌, ◌++◌, arith, none, some, length, get_elem?,
}
use fast_wallet.Errors.{
  Message, transport, rejection, EndpointVerdict, BroadcastFailure, broadcast_failed, rpc_error,
}
use fast_wallet.Errors.Text.{
  codes, strip_prefix, contains, contains_any, split_once, after_last, trim, lowercase,
}
use fast_wallet.Errors.Classify.{
  is_definitive_precheck_rejection, failure_class, is_forwarder_transport_error, pending,
  nonce_sync_block, sync_text,
}
use fast_wallet.Errors.Parse.{parse_nonce_too_low, authoritative_nonce, digits_value}
use fast_wallet.Errors.Release.{
  nonce_sync-retained, authoritative-pending, definitive_broadcast_iff,
}

abbrev json : BroadcastFailure → Message
json failure = codes "{}"

abbrev verdict : Message → EndpointVerdict
verdict error = record { host = codes "rpc.test"; error = error; elapsed_ms = 1; class = rejection }

-- Two endpoints that disagree about the nonce.
abbrev disagreement : BroadcastFailure
disagreement = record {
  endpoints =
      verdict (codes "RPC error: nonce too high") ∷ verdict (codes "RPC error: nonce too low") ∷ [];
}

abbrev arbitrum : Message
arbitrum = codes "RPC error -32000: nonce too low: address 0x59Ce, tx: 5154 state: 5155"

arbitrum_run : parse_nonce_too_low arbitrum ≡ some 5155
unfolding parse_nonce_too_low split_once strip_prefix after_last trim digits_value
arbitrum_run = refl

geth_run : parse_nonce_too_low (codes "nonce too low: next nonce 5155, tx nonce 5154") ≡ some 5155
unfolding parse_nonce_too_low split_once strip_prefix after_last trim digits_value
geth_run = refl

unrecognized_run : parse_nonce_too_low (codes "nonce too low: retry at 5155") ≡ none
unfolding parse_nonce_too_low split_once strip_prefix after_last trim digits_value
unrecognized_run = refl

forwarder_run : failure_class (rpc_error (codes "RPC error 1: Dial TCP: lookup")) ≡ transport
unfolding failure_class is_forwarder_transport_error contains contains_any lowercase split_once
forwarder_run = refl

disagreement_run : nonce_sync_block json (broadcast_failed disagreement) ≡ some pending
unfolding nonce_sync_block sync_text contains lowercase
disagreement_run = refl

nonce_sync-retained_example :
    is_definitive_precheck_rejection json (broadcast_failed disagreement) ≡ false
nonce_sync-retained_example =
    nonce_sync-retained json (broadcast_failed disagreement) pending (λ s e. cc) disagreement_run

arbitrum_authority : authoritative_nonce (rpc_error arbitrum) ≡ some 5155
unfolding authoritative_nonce
arbitrum_authority = arbitrum_run

authoritative-pending_case : nonce_sync_block json (rpc_error arbitrum) ≡ some pending
authoritative-pending_case = authoritative-pending json (rpc_error arbitrum) 5155 arbitrum_authority

definitive_broadcast_iff_case :
    (is_definitive_precheck_rejection json (broadcast_failed disagreement) ≡ true) ↔ (
      (0 < length disagreement.endpoints)
      × ((i : ℕ) (v : EndpointVerdict)
          → get_elem? disagreement.endpoints i ≡ some v
          → (v.class ≡ rejection)
            × (is_definitive_precheck_rejection json (rpc_error v.error) ≡ true)))
definitive_broadcast_iff_case = definitive_broadcast_iff json disagreement

parse-geth_example :
    parse_nonce_too_low (
      codes "RPC error -32000: "
      ++ (codes "nonce too low: " ++ geth_details (decimal 2_026) (decimal 7)))
    ≡ some 2_026
parse-geth_example = parse-geth (codes "RPC error -32000: ") 2_026 7 (omega arith) (omega arith)
