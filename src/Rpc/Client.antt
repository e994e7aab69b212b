-- ===== src/Rpc/Client.antt =====
-- `RpcClient` of src/rpc/client.rs, and its requests of src/rpc/request.rs with `format_rpc_error` of
-- src/rpc.rs. What the network does with one request is an argument.
use fast_wallet.Base.{
  ℕ, suc, Bool, true, false, not, ◌++◌, Option, none, some, wrapping_add, if◌then◌else◌,
}
use fast_wallet.Errors.{Message, rpc_error, network_error, timeout, WalletResult, ok, err}
use fast_wallet.Errors.Text.{codes}
use fast_wallet.Errors.Display.{decimal}
use fast_wallet.Rpc.Redact.{redact_urls}
use fast_wallet.Rpc.Warm.{
  ParsedUrl, WarmState, for_url, probe_due, mark_success, loss_guard, disarm, drop_guard,
}

pub record RpcClient : Type 0 where
  pub url : Message
  pub request_id : ℕ
  pub request_seen : Bool
  pub warm : WarmState

-- An `i64`: a natural number, or one less than the negative of one.
pub data ℤ : Type 0 where
  pos negsuc : ℕ → ℤ

abbrev pub signed_decimal : ℤ → Message
signed_decimal (pos n) = decimal n
signed_decimal (negsuc n) = codes "-" ++ decimal (suc n)

-- A JSON value of another crate, by the two views that the code has of it: the string that it is, or the text
-- that it prints.
pub data Value : Type 0 where
  json_string json_text : Message → Value

abbrev pub value_text : Value → Message
value_text (json_string s) = s
value_text (json_text s) = s

pub record RpcError : Type 0 where
  pub code : ℤ
  pub message : Message
  pub payload : Option Value

-- The client of the HTTP crate is built or fails with a text; `parse` is that crate's URL parser.
module _ (build_client : ℕ → Option Message) (parse : Message → Option ParsedUrl) where
  unfoldable pub with_request_timeout : Message → ℕ → WalletResult RpcClient
  unfolding for_url
  with_request_timeout url request_timeout = elim (build_client request_timeout) [
    | some text ↦ err (network_error text)
    | none ↦
        ok (record { url = url; request_id = 1; request_seen = false; warm = for_url parse url })
  ]

unfoldable pub next_id : RpcClient → RpcClient × ℕ
next_id c = (record c { request_id = wrapping_add c.request_id 1 }, c.request_id)

unfoldable pub mark_request_started : RpcClient → RpcClient
mark_request_started c = record c { request_seen = true }

unfoldable pub connection_reuse_hint : RpcClient → RpcClient × Bool
connection_reuse_hint c = (record c { request_seen = true }, c.request_seen)

unfoldable pub should_skip_warmup : RpcClient → ℕ → Bool
unfolding probe_due
should_skip_warmup c now = not (probe_due c.warm now)

-- `data={data_str}`, if there are data.
abbrev with_data : Message → Option Value → Message
with_data msg none = msg
with_data msg (some v) = msg ++ (codes " data=" ++ value_text v)

unfoldable pub format_rpc_error : RpcError → Message
unfolding redact_urls
format_rpc_error e = redact_urls (
    with_data (codes "RPC error " ++ (signed_decimal e.code ++ (codes ": " ++ e.message)))
      e.payload)

-- What becomes of one request: the send fails, the body does not decode, the future is dropped before the
-- whole answer arrives, or an answer arrives with its two optional parts.
pub data Exchange {ℓ} (T : Type ℓ) : Type ℓ where
  send_fails body_fails : (text : Message) → Exchange T
  dropped : Exchange T
  answers : (error : Option RpcError) (result : Option T) → Exchange T

module _ {ℓ} {T : Type ℓ} where
  -- The wallet result of an answer.
  unfoldable pub answer_result : Option RpcError → Option T → WalletResult T
  unfolding format_rpc_error
  answer_result (some e) result = err (rpc_error (format_rpc_error e))
  answer_result none none = err (rpc_error (codes "Empty response"))
  answer_result none (some result) = ok result

  -- The last step marks the state only behind a clean answer.
  unfoldable pub marked : WarmState → WalletResult T → ℕ → WarmState
  unfolding mark_success
  marked state (ok result) now = mark_success state now
  marked state (err e) now = state

  -- The client after the request, and the result, which a dropped future does not give.
  unfoldable pub request : RpcClient → Exchange T → ℕ → RpcClient × Option (WalletResult T)
  unfolding next_id mark_request_started loss_guard drop_guard disarm answer_result marked
      redact_urls
  request client exchange now =
      let (c, id) = next_id (mark_request_started client) in
      let guard = loss_guard c.warm in
      elim exchange [
        | send_fails text ↦ (
          record c { warm = drop_guard guard c.warm },
          some (err (network_error (redact_urls text))),
        )
        | body_fails text ↦
            (record c { warm = drop_guard guard c.warm }, some (err (rpc_error (redact_urls text))))
        | dropped ↦ (record c { warm = drop_guard guard c.warm }, none)
        | answers error result ↦
            let warm = drop_guard (disarm guard) c.warm in
            let answer = answer_result error result in
            (record c { warm = marked warm answer now }, some answer)
      ]

-- `tokio::time::timeout` gives up on the request by dropping it.
unfoldable pub warmup : RpcClient → Exchange Message → ℕ → RpcClient × WalletResult {0} Unit
unfolding should_skip_warmup request
warmup client exchange now =
    if should_skip_warmup client now
    then (client, ok tt)
    else (let (c, result) = request client exchange now in
        elim result [
          | none ↦ (c, err timeout)
          | some (ok id) ↦ (c, ok tt)
          | some (err e) ↦ (c, err e)
        ])
