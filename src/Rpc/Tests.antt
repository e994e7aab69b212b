-- ===== src/Rpc/Tests.antt =====
-- Runs of the RPC layer, and its theorems at concrete inputs: three endpoints, of which the last answers first.
mod Rows
use mathlib.Core.List.{Permᴰ, Memᴰ, reverse}
use mathlib.Core.List.Permᴰ
use fast_wallet.Base.{
  ℕ, ◌-◌, ◌<◌, ◌≡◌, ◌≢◌, ◌↔◌, refl, Bool, true, false, List, [], ◌∷◌, ◌++◌, all, any, weigh, Option,
  none, some, inl, inr, arith,
}
use fast_wallet.Errors.{
  Message, rejection, transport, BroadcastFailure, WalletError, timeout, rpc_error, network_error,
  broadcast_failed, WalletResult, ok, err,
}
use fast_wallet.Errors.Text.{codes, strip_prefix, contains_any, lowercase}
use fast_wallet.Rpc.Redact.{url_schemes, redact_loop, redact_urls}
use fast_wallet.Rpc.Hidden.{redact_urls_hides}
use fast_wallet.Rpc.Cut.{redact_loop_ends}
use fast_wallet.Rpc.Warm.{ParsedUrl, probe_due}
use fast_wallet.Rpc.Client.{RpcClient, Value, json_text, pos, Exchange, answers, dropped, request}
use fast_wallet.Rpc.Send.{HashTools, SendResult}
use fast_wallet.Rpc.Fanout.{EndpointReply, broadcast_transaction_observed}
use fast_wallet.Rpc.Verdicts.{
  is_ok, is_taken, verdicts, Reports, fan_out_succeeds, fan_out-verdicts, fan_out-Reports,
}
use fast_wallet.Rpc.Leaks.{is_secret_free, fan_out-secret_free}
use fast_wallet.Rpc.Reads.{
  tx_exists, parse_u64_hex, Poll, wait_for_receipt, get_transaction_receipt,
  max_consecutive_receipt_errors,
}
use fast_wallet.Rpc.Receipts.{or_null, receipt_arrives, tx_exists-never_false}
use fast_wallet.Rpc.Warmth.{after, CleanAt, probe_spared_iff}
use fast_wallet.Rpc.Clients.{
  BatchRpcClient, normalized_url, has_key, sharing_primary, default_broadcast_send_timeout,
}
use fast_wallet.Rpc.Distinct.{Distinct, sharing_primary-Distinct}

redact_run :
    redact_urls (codes "url (HTTPS://u:k@node.test/v2/key) and ws://b.test/key")
    ≡ codes "url (node.test and b.test"
unfolding redact_urls fast_wallet.Errors.Text.after_last fast_wallet.Errors.Text.split_once
redact_run = refl

redact_urls_hides_example :
    contains_any url_schemes (lowercase (redact_urls (codes "at Wss://b.test/key"))) ≡ false
redact_urls_hides_example = redact_urls_hides (codes "at Wss://b.test/key")

redact_loop_ends_example :
    (out : Message) × (redact_loop 20 (codes "at Wss://b.test/key") ≡ some out)
redact_loop_ends_example = redact_loop_ends 20 (codes "at Wss://b.test/key") (omega arith)

hex_run : parse_u64_hex (codes "0x1bC16d674ec80000") ≡ ok 2_000_000_000_000_000_000
unfolding parse_u64_hex fast_wallet.Errors.Text.strip_prefix
hex_run = refl

abbrev json : BroadcastFailure → Message
json failure = []

abbrev tools : HashTools
tools = record { decode = λ s. inr s; keccak256 = λ b. b; debug = λ b. b }

abbrev reply : ℕ → Message → WalletResult (Message × Bool) → ℕ → EndpointReply
reply i url result ms = record { endpoint_index = i; url = url; result = result; elapsed_ms = ms }

abbrev slow : EndpointReply
slow = reply 0 (codes "https://a.test/key") (err timeout) 6000

abbrev refusal : EndpointReply
refusal = reply 1 (codes "https://b.test/key") (err (rpc_error (codes "at https://b.test/key"))) 40

abbrev taker : EndpointReply
taker = reply 2 (codes "https://c.test/key") (ok (9 ∷ [], true)) 30

abbrev two_fail : List EndpointReply
two_fail = slow ∷ refusal ∷ []

abbrev one_takes : List EndpointReply
one_takes = slow ∷ taker ∷ []

abbrev later_first : List EndpointReply → List EndpointReply
later_first = reverse

later_first-arrives : (rs : List EndpointReply) → Permᴰ (later_first rs) rs
later_first-arrives = Permᴰ.reverse

fan_out_succeeds_case :
    is_ok (broadcast_transaction_observed json tools 40 later_first one_takes)
    ≡ any is_taken one_takes
fan_out_succeeds_case = fan_out_succeeds json tools 40 later_first later_first-arrives one_takes

fan_out-verdicts_example :
    (failure : BroadcastFailure) × (broadcast_transaction_observed json tools 6000 later_first
        two_fail
      ≡ err (broadcast_failed failure))
    × Permᴰ failure.endpoints (verdicts json two_fail)
fan_out-verdicts_example =
    fan_out-verdicts json tools 6000 later_first later_first-arrives slow (refusal ∷ []) refl

abbrev taken : SendResult
taken = record {
  tx_hash = 9 ∷ [];
  sign_ms = 0;
  semaphore_wait_ms = 0;
  broadcast_fanout_ms = 40;
  fastest_endpoint_ms = 30;
  fastest_endpoint_host = codes "c.test";
  slowest_endpoint_ms = 30;
  first_success_endpoint_index = 2;
  failed_endpoints = 0;
  connection_reused = true;
  per_endpoint_ms = (codes "c.test", inl 30) ∷ [];
}

taken_run : broadcast_transaction_observed json tools 40 later_first one_takes ≡ ok taken
unfolding broadcast_transaction_observed fast_wallet.Errors.Text.after_last
    fast_wallet.Errors.Text.split_once
taken_run = refl

fan_out-Reports_case : Reports json tools 40 one_takes taken
fan_out-Reports_case =
    fan_out-Reports json tools 40 later_first later_first-arrives one_takes taken taken_run

-- Both verdicts, the endpoint that refused first.
abbrev both : BroadcastFailure
both = record {
  endpoints =
      record {
        host = codes "b.test";
        error = codes "RPC error: at b.test";
        elapsed_ms = 40;
        class = rejection;
      }
      ∷ record {
        host = codes "a.test";
        error = codes "Transaction timeout";
        elapsed_ms = 6000;
        class = transport;
      }
      ∷ [];
}

both_run :
    broadcast_transaction_observed json tools 6000 later_first two_fail
    ≡ err (broadcast_failed both)
unfolding broadcast_transaction_observed fast_wallet.Errors.Text.after_last
    fast_wallet.Errors.Text.split_once fast_wallet.Errors.Text.contains_any
    fast_wallet.Errors.Text.lowercase fast_wallet.Errors.Classify.is_forwarder_transport_error
both_run = refl

fan_out-secret_free_example : all is_secret_free both.endpoints ≡ true
fan_out-secret_free_example = fan_out-secret_free json tools 6000 later_first two_fail both both_run

-- Four polls fail, two before and two behind one that finds that there is no receipt yet.
abbrev polls : List Poll
polls =
    (0, err timeout)
    ∷ (500, err (network_error []))
    ∷ (1000, err (rpc_error (codes "Empty response")))
    ∷ (1500, err (rpc_error (codes "Empty")))
    ∷ (2000, err timeout)
    ∷ []

receipt_arrives_example :
    wait_for_receipt 120_000 (polls ++ (2500, ok (json_text [])) ∷ []) ≡ some (ok (json_text []))
receipt_arrives_example =
    receipt_arrives 120_000 polls 2500 (json_text []) [] refl (omega arith) refl refl

abbrev parse : Message → Option ParsedUrl
parse url = elim (strip_prefix (codes "https://") url) [
  | some rest ↦ some (record { is_https = true; printed = lowercase url })
  | none ↦ none
]

abbrev client_at : Message → RpcClient
client_at url = record {
  url = url;
  request_id = 1;
  request_seen = false;
  warm = record { window = 240_000; last_success = none };
}

abbrev null_answer : Exchange Value
null_answer = answers none none

null_run :
    (request (client_at (codes "https://a.test")) (or_null null_answer) 0).1
    ≡ some (err (rpc_error (codes "Empty response")))
unfolding request
null_run = refl

tx_exists-never_false_example : tx_exists (err (rpc_error (codes "Empty response"))) ≢ ok false
tx_exists-never_false_example =
    tx_exists-never_false (client_at (codes "https://a.test")) null_answer 0
      (err (rpc_error (codes "Empty response"))) null_run

-- A refusal after a clean answer, and before that a lost connection.
abbrev past : List (Exchange Message × ℕ)
past =
    (answers (some (record { code = pos 3; message = []; payload = none })) none, 9000)
    ∷ (answers none (some (codes "0x1")), 5000)
    ∷ (dropped, 1000)
    ∷ []

probe_spared_iff_example :
    (probe_due (after (client_at (codes "https://a.test")) past).warm 200_000 ≡ false)
    ↔ ((at : ℕ) × CleanAt at past × (200_000 - at < 240_000))
probe_spared_iff_example = probe_spared_iff (client_at (codes "https://a.test")) past 200_000 refl

-- The third URL is the first again, in capitals, and the primary's.
abbrev urls : List Message
urls = codes "https://a.test" ∷ codes "node" ∷ codes "https://A.test" ∷ []

abbrev shared : BatchRpcClient
shared = record {
  clients =
      client_at (codes "https://A.TEST")
      ∷ record {
        url = codes "node";
        request_id = 1;
        request_seen = false;
        warm = record { window = 60_000; last_success = none };
      }
      ∷ [];
  current = 0;
  send_timeout = default_broadcast_send_timeout;
}

abbrev builds : ℕ → Option Message
builds limit = none

shared_run :
    sharing_primary builds parse (client_at (codes "https://A.TEST")) urls 30_000 ≡ ok shared
unfolding sharing_primary fast_wallet.Errors.Text.strip_prefix fast_wallet.Errors.Text.lowercase
shared_run = refl

sharing_primary-Distinct_example :
    Distinct builds parse shared.clients
    × ((url : Message)
        → Memᴰ url urls
        → has_key builds parse (normalized_url parse url) shared.clients ≡ true)
sharing_primary-Distinct_example =
    sharing_primary-Distinct builds parse (client_at (codes "https://A.TEST")) urls 30_000 shared
      shared_run
