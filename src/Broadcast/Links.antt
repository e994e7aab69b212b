-- ===== src/Broadcast/Links.antt =====
-- The connections of `TransactionBroadcaster` in src/broadcast.rs: `call`, the sends and the warmups that go through
-- it, and the warm state that they keep for each URL. What the network does with a call is an argument.
use fast_wallet.Base.{
  true, suc, ℕ, Bool, false, not, List, [], ◌∷◌, ◌++◌, Option, none, some, wrapping_add,
  if◌then◌else◌,
}
use fast_wallet.Errors.{
  Message, WalletError, rpc_error, network_error, http_error, json_error, timeout, WalletResult, ok,
  err,
}
use fast_wallet.Errors.Text.{codes}
use fast_wallet.Transaction.{Bytes}
use fast_wallet.Broadcast.Endpoint.{RpcEndpoint}
use fast_wallet.Rpc.Redact.{redact_urls}
use fast_wallet.Rpc.Warm.{
  ParsedUrl, WarmState, for_url, probe_due, mark_success, loss_guard, disarm, drop_guard,
}
use fast_wallet.Rpc.Client.{RpcError, Value, value_text, signed_decimal}
use fast_wallet.Rpc.Send.{HashTools, is_text, parse_b256_hex, hash_locally}

abbrev pub WarmMap : Type 0
WarmMap = List (Message × WarmState)

-- What the sends and the warmups change.
pub record Links : Type 0 where
  pub warm : WarmMap
  pub request_id : ℕ

unfoldable pub find_warm : Message → WarmMap → Option WarmState
find_warm url [] = none
find_warm url ((u, state) ∷ m) = if is_text u url then some state else find_warm url m

-- The state behind the map's `Arc`, changed.
unfoldable pub store_warm : Message → WarmState → WarmMap → WarmMap
store_warm url state [] = (url, state) ∷ []
store_warm url state ((u, old) ∷ m) =
    let rest = store_warm url state m in if is_text u url then (u, state) ∷ m else (u, old) ∷ rest

unfoldable pub broadcast_next_id : Links → Links × ℕ
broadcast_next_id links =
    (record links { request_id = wrapping_add links.request_id 1 }, links.request_id)

-- The text of an error object, which has no words in front here.
abbrev with_payload : Message → Option Value → Message
with_payload msg none = msg
with_payload msg (some v) = msg ++ (codes " data=" ++ value_text v)

unfoldable pub broadcast_rpc_error : RpcError → Message
unfolding redact_urls
broadcast_rpc_error e =
    redact_urls (with_payload (signed_decimal e.code ++ (codes ": " ++ e.message)) e.payload)

-- What becomes of a call: the time limit passes before there is a response, the request fails, the body does not
-- decode, the future is dropped, or an answer arrives with its two optional parts.
pub data CallOutcome : Type 0 where
  late dropped : CallOutcome
  send_fails body_fails : Message → CallOutcome
  answers : (error : Option RpcError) (result : Option Message) → CallOutcome

abbrev pub Answer : Type 0
Answer = Option RpcError × Option Message

module _ (parse : Message → Option ParsedUrl) where
  abbrev pub or_new : Message → Option WarmState → WarmState
  or_new url none = for_url parse url
  or_new url (some state) = state

  -- `warm_state`; the entry is made if it is missing.
  unfoldable pub warm_state : Message → WarmMap → WarmState
  unfolding for_url
  warm_state url m = or_new url (find_warm url m)

  unfoldable pub warm_skips : Message → WarmMap → ℕ → Bool
  unfolding probe_due
  warm_skips url m now = elim (find_warm url m) [
    | none ↦ false
    | some state ↦ not (probe_due state now)
  ]

  -- `None` is for a future that is dropped.
  unfoldable pub call : Links → RpcEndpoint → CallOutcome → Links × Option (WalletResult Answer)
  unfolding warm_state loss_guard drop_guard disarm redact_urls
  call links endpoint outcome =
      let state = warm_state endpoint.url links.warm in
      let guard = loss_guard state in
      let lost : Links = record links {
        warm = store_warm endpoint.url (drop_guard guard state) links.warm;
      } in
      elim outcome [
        | late ↦ (lost, some (err timeout))
        | dropped ↦ (lost, none)
        | send_fails text ↦ (lost, some (err (network_error (redact_urls text))))
        | body_fails text ↦ (lost, some (err (rpc_error (redact_urls text))))
        | answers error result ↦ (
          record links {
            warm = store_warm endpoint.url (drop_guard (disarm guard) state) links.warm;
          },
          some (ok (error, result)),
        )
      ]

  unfoldable pub mark_warm : Links → Message → ℕ → Links
  unfolding warm_state mark_success
  mark_warm links url now = record links {
    warm = store_warm url (mark_success (warm_state url links.warm) now) links.warm;
  }

  -- What a warmup makes of its call.
  unfoldable pub warmed :
      Message → Links × Option (WalletResult Answer) → ℕ → Links × Option (WalletResult {0} Unit)
  unfolding broadcast_rpc_error mark_warm
  warmed url (links, none) now = (links, none)
  warmed url (links, some (err e)) now = (links, some (err e))
  warmed url (links, some (ok (some error, result))) now =
      (links, some (err (rpc_error (broadcast_rpc_error error))))
  warmed url (links, some (ok (none, none))) now =
      (links, some (err (rpc_error (codes "Empty response"))))
  warmed url (links, some (ok (none, some result))) now = (mark_warm links url now, some (ok tt))

  unfoldable pub warmup_endpoint :
      Links → RpcEndpoint → CallOutcome → ℕ → ℕ → Links × Option (WalletResult {0} Unit)
  unfolding warm_skips broadcast_next_id call warmed
  warmup_endpoint links endpoint outcome now done =
      let (numbered, id) = broadcast_next_id links in
      let probed = warmed endpoint.url (call numbered endpoint outcome) done in
      if warm_skips endpoint.url links.warm now then (links, some (ok tt)) else probed

  -- An endpoint with what becomes of its probe, and the times at which that begins and ends.
  abbrev pub Probe : Type 0
  Probe = RpcEndpoint × CallOutcome × ℕ × ℕ

  abbrev is_success : Option (WalletResult {0} Unit) → Bool
  is_success (some (ok done)) = true
  is_success other = false

  -- `TransactionBroadcaster::warmup`, in the order in which the probes end; the number of those that succeed.
  unfoldable pub broadcaster_warmup : Links → List Probe → Links × ℕ
  unfolding warmup_endpoint
  broadcaster_warmup links [] = (links, 0)
  broadcaster_warmup links ((endpoint, outcome, now, done) ∷ probes) =
      let (links', result) = warmup_endpoint links endpoint outcome now done in
      let (links'', n) = broadcaster_warmup links' probes in
      (links'', if is_success result then suc n else n)

  module _ (H : HashTools) where
    -- What a send makes of its call; a null result is hashed here.
    unfoldable pub sent :
        Message
        → Message
        → Links × Option (WalletResult Answer)
        → ℕ
        → Links × Option (WalletResult Bytes)
    unfolding broadcast_rpc_error mark_warm parse_b256_hex hash_locally
    sent raw_tx url (links, none) now = (links, none)
    sent raw_tx url (links, some (err e)) now = (links, some (err e))
    sent raw_tx url (links, some (ok (some error, result))) now =
        (links, some (err (rpc_error (broadcast_rpc_error error))))
    sent raw_tx url (links, some (ok (none, some s))) now =
        (mark_warm links url now, some (parse_b256_hex H s))
    sent raw_tx url (links, some (ok (none, none))) now =
        (mark_warm links url now, some (hash_locally H raw_tx))

    unfoldable pub send_to_endpoint :
        Links → RpcEndpoint → Message → CallOutcome → ℕ → Links × Option (WalletResult Bytes)
    unfolding broadcast_next_id call sent
    send_to_endpoint links endpoint raw_tx outcome now =
        let (numbered, id) = broadcast_next_id links in
        sent raw_tx endpoint.url (call numbered endpoint outcome) now

-- The kind of an error, for the log; each stands for its fixed word.
pub data ErrorKind : Type 0 where
  timed_out network rpc http json other : ErrorKind

unfoldable pub wallet_error_kind : WalletError → ErrorKind
wallet_error_kind timeout = timed_out
wallet_error_kind (network_error text) = network
wallet_error_kind (rpc_error text) = rpc
wallet_error_kind (http_error text) = http
wallet_error_kind (json_error text) = json
wallet_error_kind e = other
