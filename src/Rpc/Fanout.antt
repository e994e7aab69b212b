-- ===== src/Rpc/Fanout.antt =====
-- The fan-out of src/rpc/batch.rs: a signed transaction goes to every endpoint, the first that takes it
-- decides, and when all fail their verdicts are collected. Endpoints complete in some order.
use fast_wallet.Base.{ℕ, suc, List, [], ◌∷◌, ◌++◌, map, ◌⊎◌, inl, inr, Bool, length, max}
use fast_wallet.Errors.{
  Message, EndpointVerdict, BroadcastFailure, WalletError, broadcast_failed, rpc_error,
  WalletResult, ok, err,
}
use fast_wallet.Errors.Text.{codes}
use fast_wallet.Errors.Display.{to_string}
use fast_wallet.Errors.Classify.{failure_class}
use fast_wallet.Transaction.{Bytes}
use fast_wallet.Broadcast.Endpoint.{endpoint_host}
use fast_wallet.Rpc.Redact.{redact_urls}
use fast_wallet.Rpc.Send.{HashTools, SendResult}

-- What one endpoint's future gives.
pub record EndpointReply : Type 0 where
  pub endpoint_index : ℕ
  pub url : Message
  pub result : WalletResult (Bytes × Bool)
  pub elapsed_ms : ℕ

module _ (json : BroadcastFailure → Message) where
  -- `EndpointVerdict::new`.
  unfoldable pub new_verdict : Message → WalletError → ℕ → EndpointVerdict
  unfolding endpoint_host redact_urls to_string failure_class
  new_verdict url error elapsed_ms = record {
    host = endpoint_host url;
    error = redact_urls (to_string json error);
    elapsed_ms = elapsed_ms;
    class = failure_class error;
  }

abbrev pub failed_part : EndpointVerdict → Message × (ℕ ⊎ Message)
failed_part v = (v.host, inr v.error)

module _ (H : HashTools) where
  unfoldable pub success_result :
      EndpointReply → Bytes → Bool → ℕ → ℕ → List EndpointVerdict → SendResult
  unfolding endpoint_host
  success_result reply hash reused slowest_endpoint_ms fanout_ms failures = record {
    tx_hash = H.debug hash;
    sign_ms = 0;
    semaphore_wait_ms = 0;
    broadcast_fanout_ms = fanout_ms;
    fastest_endpoint_ms = reply.elapsed_ms;
    fastest_endpoint_host = endpoint_host reply.url;
    slowest_endpoint_ms = slowest_endpoint_ms;
    first_success_endpoint_index = reply.endpoint_index;
    failed_endpoints = length failures;
    connection_reused = reused;
    per_endpoint_ms =
        map failed_part failures ++ ((endpoint_host reply.url, inl reply.elapsed_ms) ∷ []);
  }

-- The futures of all endpoints, numbered from `i`: what each answers, and in how many milliseconds.
unfoldable pub fan_out :
    (ℕ → Message → WalletResult (Bytes × Bool) × ℕ) → ℕ → List Message → List EndpointReply
fan_out send i [] = []
fan_out send i (url ∷ urls) =
    record { endpoint_index = i; url = url; result = (send i url).0; elapsed_ms = (send i url).1 }
    ∷ fan_out send (suc i) urls

module _ (json : BroadcastFailure → Message) (H : HashTools) (fanout_ms : ℕ) where
  -- The loop over the replies in the order of their arrival; the two variables are its arguments.
  unfoldable pub collect_broadcast :
      List EndpointReply → List EndpointVerdict → ℕ → WalletResult SendResult
  unfolding success_result new_verdict
  collect_broadcast [] failures slowest = err (broadcast_failed (record { endpoints = failures }))
  collect_broadcast (reply ∷ remaining) failures slowest =
      let slower = max slowest reply.elapsed_ms in
      elim reply.result [
        | ok (hash, reused) ↦ ok (success_result H reply hash reused slower fanout_ms failures)
        | err error ↦
            collect_broadcast remaining
              (failures ++ (new_verdict json reply.url error reply.elapsed_ms ∷ [])) slower
      ]

  -- The replies are those of the clients, in the clients' order.
  unfoldable pub broadcast_transaction_observed :
      (List EndpointReply → List EndpointReply) → List EndpointReply → WalletResult SendResult
  unfolding collect_broadcast
  broadcast_transaction_observed arrival [] = err (rpc_error (codes "No RPC endpoints"))
  broadcast_transaction_observed arrival (r ∷ rs) = collect_broadcast (arrival (r ∷ rs)) [] 0
