-- ===== src/Rpc/Send.antt =====
-- Sending raw transactions to one endpoint: src/rpc/send.rs, `parse_b256_hex` and `SendResult` of src/rpc.rs,
-- and `Observation::send` of src/rpc/observation.rs, less what observers are told.
use fast_wallet.Base.{
  ℕ, Bool, true, false, [], ◌∷◌, ◌++◌, ◌⊎◌, inl, inr, Option, none, some, List, length, ◌==◌,
  unwrap_or, if◌then◌else◌,
}
use fast_wallet.Errors.{Message, rpc_error, hex_error, send_timeout, WalletResult, ok, err, ◌>>=◌}
use fast_wallet.Errors.Text.{codes, strip_prefix}
use fast_wallet.Errors.Display.{decimal}
use fast_wallet.Transaction.{Bytes}
use fast_wallet.Broadcast.Endpoint.{endpoint_host}
use fast_wallet.Rpc.Client.{RpcClient, Exchange, connection_reuse_hint, request}

-- The crates that sending uses: `hex::decode`, which gives bytes or the text of its error, Keccak, and the
-- text that `{:?}` gives of a hash.
pub record HashTools : Type 0 where
  pub decode : Message → Message ⊎ Bytes
  pub keccak256 : Bytes → Bytes
  pub debug : Bytes → Message

-- The milliseconds of signing are 0 here, a whole number.
pub record SendResult : Type 0 where
  pub tx_hash : Message
  pub sign_ms : ℕ
  pub semaphore_wait_ms : ℕ
  pub broadcast_fanout_ms : ℕ
  pub fastest_endpoint_ms : ℕ
  pub fastest_endpoint_host : Message
  pub slowest_endpoint_ms : ℕ
  pub first_success_endpoint_index : ℕ
  pub failed_endpoints : ℕ
  pub connection_reused : Bool
  pub per_endpoint_ms : List (Message × (ℕ ⊎ Message))

abbrev pub is_text : Message → Message → Bool
is_text [] [] = true
is_text [] (d ∷ t) = false
is_text (c ∷ s) [] = false
is_text (c ∷ s) (d ∷ t) = if c == d then is_text s t else false

-- `s.strip_prefix("0x").unwrap_or(s)`.
unfoldable pub without_0x : Message → Message
without_0x s = unwrap_or (strip_prefix (codes "0x") s) s

module _ (H : HashTools) where
  unfoldable pub parse_b256_hex : Message → WalletResult Bytes
  unfolding without_0x
  parse_b256_hex s = elim (H.decode (without_0x s)) [
    | inl text ↦ err (hex_error text)
    | inr bytes ↦
        (if length bytes == 32
          then ok bytes
          else err (rpc_error (codes "Invalid hash length: " ++ decimal (length bytes))))
  ]

  -- The hash of the bytes that were sent, for a node that answers with a null result.
  unfoldable pub hash_locally : Message → WalletResult Bytes
  unfolding without_0x
  hash_locally raw_tx = elim (H.decode (without_0x raw_tx)) [
    | inl text ↦ err (rpc_error (codes "Failed to decode raw tx: " ++ text))
    | inr bytes ↦ ok (H.keccak256 bytes)
  ]

  -- What `send_with_detail` makes of the request's result.
  unfoldable pub sent_hash : Message → WalletResult Message → WalletResult Bytes
  unfolding parse_b256_hex hash_locally
  sent_hash raw_tx (ok result) = parse_b256_hex result
  sent_hash raw_tx (err (rpc_error msg)) =
      if is_text msg (codes "Empty response") then hash_locally raw_tx else err (rpc_error msg)
  sent_hash raw_tx (err e) = err e

  -- The reuse hint is taken before the request.
  unfoldable pub send_with_detail :
      RpcClient → Message → Exchange Message → ℕ → RpcClient × Option (WalletResult (Bytes × Bool))
  unfolding connection_reuse_hint sent_hash request
  send_with_detail client raw_tx exchange now =
      let (c, reused) = connection_reuse_hint client in
      let (c', result) = request c exchange now in
      elim result [
        | none ↦ (c', none)
        | some r ↦ (c', some (sent_hash raw_tx r >>= λ hash. ok (hash, reused)))
      ]

  -- A send whose future the timeout drops.
  unfoldable pub observed_send :
      RpcClient → Message → ℕ → Exchange Message → ℕ → RpcClient × WalletResult (Bytes × Bool)
  unfolding send_with_detail
  observed_send client raw_tx timeout exchange now =
      let (c, result) = send_with_detail client raw_tx exchange now in
      elim result [ some r ↦ (c, r) | none ↦ (c, err (send_timeout timeout)) ]

  unfoldable pub detailed : Message → Bytes × Bool → ℕ → SendResult
  detailed url (hash, reused) endpoint_ms = record {
    tx_hash = H.debug hash;
    sign_ms = 0;
    semaphore_wait_ms = 0;
    broadcast_fanout_ms = endpoint_ms;
    fastest_endpoint_ms = endpoint_ms;
    fastest_endpoint_host = endpoint_host url;
    slowest_endpoint_ms = endpoint_ms;
    first_success_endpoint_index = 0;
    failed_endpoints = 0;
    connection_reused = reused;
    per_endpoint_ms = (endpoint_host url, inl endpoint_ms) ∷ [];
  }

  unfoldable pub send_raw_transaction_detailed :
      RpcClient → Message → Exchange Message → ℕ → ℕ → RpcClient × Option (WalletResult SendResult)
  unfolding send_with_detail detailed
  send_raw_transaction_detailed client raw_tx exchange now endpoint_ms =
      let (c, result) = send_with_detail client raw_tx exchange now in
      elim result [
        | none ↦ (c, none)
        | some r ↦ (c, some (r >>= λ sent. ok (detailed c.url sent endpoint_ms)))
      ]
