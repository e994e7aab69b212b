-- ===== src/Wallet/Build.antt =====
-- How src/wallet.rs makes a wallet: `new`, `with_known_nonce`, `with_multiple_rpcs`, and `FastWalletBuilder` with
-- its two builds; and which client serves what. What the chain answers to the first nonce request is an argument;
-- requests change the clients only by their counters and warm state, which a new wallet has not used yet.
use fast_wallet.Base.{
  ℕ, Bool, true, false, ◌&&◌, List, [], ◌∷◌, ◌++◌, Option, none, some, if◌then◌else◌,
}
use fast_wallet.Errors.{Message, WalletError, invalid_config, WalletResult, ok, err, ◌>>=◌}
use fast_wallet.Errors.Text.{codes}
use fast_wallet.Tracker
use fast_wallet.Signer.{Keys, FastSigner, crypto_of, from_hex}
use fast_wallet.Rpc.Warm.{ParsedUrl}
use fast_wallet.Rpc.Client.{RpcClient, with_request_timeout}
use fast_wallet.Rpc.Send.{is_text}
use fast_wallet.Rpc.Clients.{BatchRpcClient, normalized_url, sharing_primary, with_send_timeout}
use fast_wallet.Wallet.{FastWallet, Setting}
use fast_wallet.Wallet.Gas.{GasCaches}
use fast_wallet.Wallet.Config.{WalletConfig, FastWalletBuilder}

-- A whole wallet: `state` is what its calls change besides clients and caches.
pub record BuiltWallet : Type 0 where
  pub signer : FastSigner
  pub state : FastWallet
  pub rpc_client : RpcClient
  pub gas_rpc_client : Option RpcClient
  pub batch_client : Option BatchRpcClient
  pub pending_permits : ℕ
  pub gas_caches : GasCaches
  pub warmed_up : Bool
  pub config : WalletConfig

-- What signing reads of the wallet.
abbrev pub setting_of : Keys → BuiltWallet → Setting
setting_of K w = record {
  crypto = crypto_of K w.signer;
  address = w.signer.address;
  chain_id = w.config.chain_id;
  default_gas_limit = w.config.default_gas_limit;
}

-- The fields of a wallet that has done nothing.
abbrev pub started : FastSigner → RpcClient → ℕ → WalletConfig → BuiltWallet
started signer rpc_client nonce config = record {
  signer = signer;
  state = record { tracker = Tracker.new nonce; inflight = []; last_stall_replace = none };
  rpc_client = rpc_client;
  gas_rpc_client = none;
  batch_client = none;
  pending_permits = config.max_pending_txs;
  gas_caches = record { gas_price_cache = none; priority_fee_cache = none };
  warmed_up = false;
  config = config;
}

-- The primary's URL in front, unless the list is exclusive.
unfoldable pub resolve_broadcast_rpcs : Message → List Message → Bool → List Message
resolve_broadcast_rpcs primary_rpc broadcast_rpcs exclusive =
    if exclusive then broadcast_rpcs else primary_rpc ∷ broadcast_rpcs

-- The clients that a signed transaction goes to: the batch client's, else the primary.
unfoldable pub routes : BuiltWallet → List RpcClient
routes w = elim w.batch_client [ some batch ↦ batch.clients | none ↦ w.rpc_client ∷ [] ]

-- The text has a dash of three bytes.
abbrev no_exclusive_rpcs : WalletError
no_exclusive_rpcs = invalid_config (
    codes "broadcast_rpcs_exclusive requires at least one RPC endpoint "
    ++ (226
        ∷ 128
        ∷ 148
        ∷ codes " an empty list would silently fall back to broadcasting via primary_rpc"))

abbrev pub is_nil : List Message → Bool
is_nil [] = true
is_nil (u ∷ us) = false

module _ (K : Keys) (build_client : ℕ → Option Message) (parse : Message → Option ParsedUrl) where
  unfoldable pub with_known_nonce : Message → Message → ℕ → WalletConfig → WalletResult BuiltWallet
  unfolding from_hex with_request_timeout
  with_known_nonce private_key rpc_url initial_nonce config = from_hex K private_key >>= λ signer.
      with_request_timeout build_client parse rpc_url config.rpc_request_timeout >>= λ client.
      ok (started signer client initial_nonce config)

  -- `FastWallet::new`; `chain` is the chain's pending nonce of an address.
  unfoldable pub new_wallet :
      (FastSigner → WalletResult ℕ) → Message → Message → WalletConfig → WalletResult BuiltWallet
  unfolding from_hex with_request_timeout
  new_wallet chain private_key rpc_url config = from_hex K private_key >>= λ signer.
      with_request_timeout build_client parse rpc_url config.rpc_request_timeout >>= λ client.
      chain signer >>= λ nonce. ok (started signer client nonce config)

  -- The batch client over a list of URLs.
  unfoldable pub with_batch : BuiltWallet → List Message → WalletResult BuiltWallet
  unfolding sharing_primary with_send_timeout
  with_batch w urls =
      sharing_primary build_client parse w.rpc_client urls w.config.rpc_request_timeout >>= λ batch.
      ok
        (record w { batch_client = some (with_send_timeout batch w.config.broadcast_send_timeout) })

  unfoldable pub with_multiple_rpcs :
      (FastSigner → WalletResult ℕ)
      → Message
      → Message
      → List Message
      → WalletConfig
      → WalletResult BuiltWallet
  unfolding new_wallet with_batch
  with_multiple_rpcs chain private_key primary_rpc broadcast_rpcs config =
      new_wallet chain private_key primary_rpc config >>= λ wallet.
      if is_nil broadcast_rpcs then ok wallet else with_batch wallet (primary_rpc ∷ broadcast_rpcs)

  -- The first of the clients that has the key.
  unfoldable pub client_with : Message → List RpcClient → Option RpcClient
  unfolding normalized_url
  client_with key [] = none
  client_with key (c ∷ cs) =
      if is_text (normalized_url parse c.url) key then some c else client_with key cs

  abbrev pub batch_clients : Option BatchRpcClient → List RpcClient
  batch_clients none = []
  batch_clients (some batch) = batch.clients

  unfoldable pub client_for : BuiltWallet → Message → WalletResult RpcClient
  client_for w url =
      elim (client_with (normalized_url parse url) (w.rpc_client ∷ batch_clients w.batch_client)) [
        | some client ↦ ok client
        | none ↦ with_request_timeout build_client parse url w.config.rpc_request_timeout
      ]

  -- The gas client, if a URL for it was given.
  unfoldable pub with_gas_client : Option Message → BuiltWallet → WalletResult BuiltWallet
  unfolding client_for
  with_gas_client none w = ok w
  with_gas_client (some url) w =
      client_for w url >>= λ client. ok (record w { gas_rpc_client = some client })

  -- `gas_rpc`.
  unfoldable pub gas_rpc : BuiltWallet → RpcClient
  gas_rpc w = elim w.gas_rpc_client [ some client ↦ client | none ↦ w.rpc_client ]

  abbrev resolved : FastWalletBuilder → List Message
  resolved b = resolve_broadcast_rpcs b.primary_rpc b.broadcast_rpcs b.exclusive_broadcast

  -- The wallet of `build`, before its gas client: with the nonce that was given, or that of the chain.
  unfoldable pub build_base :
      FastWalletBuilder → (FastSigner → WalletResult ℕ) → WalletResult BuiltWallet
  unfolding with_known_nonce new_wallet with_batch resolve_broadcast_rpcs
  build_base b chain = elim b.initial_nonce [
    | some nonce ↦ with_known_nonce b.private_key b.primary_rpc nonce b.config >>= λ wallet.
        if is_nil b.broadcast_rpcs then ok wallet else with_batch wallet (resolved b)
    | none ↦
        (if is_nil b.broadcast_rpcs
          then new_wallet chain b.private_key b.primary_rpc b.config
          else (new_wallet chain b.private_key b.primary_rpc b.config >>= λ wallet.
              with_batch wallet (resolved b)))
  ]

  unfoldable pub build_wallet :
      FastWalletBuilder → (FastSigner → WalletResult ℕ) → WalletResult BuiltWallet
  unfolding build_base with_gas_client
  build_wallet b chain =
      if b.exclusive_broadcast && is_nil b.broadcast_rpcs
      then err no_exclusive_rpcs
      else (build_base b chain >>= λ wallet. with_gas_client b.gas_rpc_url wallet)

  unfoldable pub build_with_nonce : FastWalletBuilder → ℕ → WalletResult BuiltWallet
  unfolding with_known_nonce with_batch resolve_broadcast_rpcs with_gas_client
  build_with_nonce b nonce =
      if b.exclusive_broadcast && is_nil b.broadcast_rpcs
      then err no_exclusive_rpcs
      else (with_known_nonce b.private_key b.primary_rpc nonce b.config >>= λ wallet.
          (if is_nil b.broadcast_rpcs then ok wallet else with_batch wallet (resolved b))
          >>= λ routed. with_gas_client b.gas_rpc_url routed)
