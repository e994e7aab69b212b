-- ===== src/Wallet/Config.antt =====
-- `WalletConfig` of src/wallet.rs, and the setters of `FastWalletBuilder`. Durations are milliseconds; of a gas
-- provider it is kept whether there is one, what it answers being an argument where prices are read.
use fast_wallet.Base.{ℕ, Bool, true, false, List, [], ◌∷◌, ◌++◌, Option, none, some}
use fast_wallet.Errors.{Message}
use fast_wallet.Errors.Text.{codes}
use fast_wallet.Rpc.Clients.{default_broadcast_send_timeout}
use fast_wallet.Wallet.Gas.{GasSetting}

pub record WalletConfig : Type 0 where
  pub chain_id : ℕ
  pub default_gas_limit : ℕ
  pub max_pending_txs : ℕ
  pub broadcast_send_timeout : ℕ
  pub rpc_request_timeout : ℕ
  pub confirmation_timeout : ℕ
  pub poll_interval : ℕ
  pub use_eip1559 : Bool
  pub gas_cache_duration : Option ℕ
  pub background_gas_refresh : Option ℕ
  pub optimistic_default_gas_price : ℕ
  pub optimistic_default_gas_limit : ℕ
  pub max_gas_cache_age : ℕ
  pub pending_acquire_timeout : ℕ
  pub has_gas_provider : Bool

-- `Default`.
unfoldable pub default_config : WalletConfig
default_config = record {
  chain_id = 1;
  default_gas_limit = 21_000;
  max_pending_txs = 100;
  broadcast_send_timeout = default_broadcast_send_timeout;
  rpc_request_timeout = 30_000;
  confirmation_timeout = 120_000;
  poll_interval = 500;
  use_eip1559 = true;
  gas_cache_duration = none;
  background_gas_refresh = none;
  optimistic_default_gas_price = 1_000_000_000;
  optimistic_default_gas_limit = 150_000;
  max_gas_cache_age = 30_000;
  pending_acquire_timeout = 100;
  has_gas_provider = false;
}

-- The part that the gas caches read.
abbrev pub gas_setting : WalletConfig → GasSetting
gas_setting c = record {
  gas_cache_duration = c.gas_cache_duration;
  background_gas_refresh = c.background_gas_refresh;
  max_gas_cache_age = c.max_gas_cache_age;
  optimistic_default_gas_price = c.optimistic_default_gas_price;
  optimistic_default_gas_limit = c.optimistic_default_gas_limit;
}

pub record FastWalletBuilder : Type 0 where
  pub private_key : Message
  pub primary_rpc : Message
  pub gas_rpc_url : Option Message
  pub broadcast_rpcs : List Message
  pub exclusive_broadcast : Bool
  pub config : WalletConfig
  pub initial_nonce : Option ℕ

unfoldable pub new_wallet_builder : Message → Message → FastWalletBuilder
unfolding default_config
new_wallet_builder private_key primary_rpc = record {
  private_key = private_key;
  primary_rpc = primary_rpc;
  gas_rpc_url = none;
  broadcast_rpcs = [];
  exclusive_broadcast = false;
  config = default_config;
  initial_nonce = none;
}

unfoldable pub with_blink_chain : Message → Message → Message → FastWalletBuilder
unfolding new_wallet_builder
with_blink_chain private_key chain api_key =
    new_wallet_builder private_key
      (codes "https://" ++ (chain ++ (codes ".blinklabs.xyz/v1/" ++ api_key)))

unfoldable pub with_blink : Message → Message → FastWalletBuilder
unfolding new_wallet_builder
with_blink private_key api_key =
    new_wallet_builder private_key (codes "https://eth.blinklabs.xyz/v1/" ++ api_key)

unfoldable pub broadcast_rpcs_shared : FastWalletBuilder → List Message → FastWalletBuilder
broadcast_rpcs_shared b rpcs = record b { broadcast_rpcs = rpcs; exclusive_broadcast = false }

unfoldable pub broadcast_rpcs_exclusive : FastWalletBuilder → List Message → FastWalletBuilder
broadcast_rpcs_exclusive b rpcs = record b { broadcast_rpcs = rpcs; exclusive_broadcast = true }

-- The list grows, and stays exclusive or not.
unfoldable pub add_blink_broadcast : FastWalletBuilder → Message → FastWalletBuilder
add_blink_broadcast b api_key = record b {
  broadcast_rpcs = b.broadcast_rpcs ++ ((codes "https://eth.blinklabs.xyz/v1/" ++ api_key) ∷ []);
}

-- One setter for each of the builder's remaining methods, which write one field each.
pub data Setter : Type 0 where
  gas_rpc_url : Message → Setter
  chain_id initial_nonce max_pending_txs confirmation_timeout rpc_request_timeout poll_interval
        gas_cache_duration background_gas_refresh optimistic_default_gas_price
        optimistic_default_gas_limit :
      ℕ → Setter
  use_eip1559 : Bool → Setter
  gas_provider : Setter
  config : WalletConfig → Setter

abbrev in_config : FastWalletBuilder → (WalletConfig → WalletConfig) → FastWalletBuilder
in_config b change = record b { config = change b.config }

unfoldable pub set_builder_field : Setter → FastWalletBuilder → FastWalletBuilder
set_builder_field (gas_rpc_url url) b = record b { gas_rpc_url = some url }
set_builder_field (chain_id id) b = in_config b (λ c. record c { chain_id = id })
set_builder_field (initial_nonce nonce) b = record b { initial_nonce = some nonce }
set_builder_field (max_pending_txs max) b = in_config b (λ c. record c { max_pending_txs = max })
set_builder_field (confirmation_timeout timeout) b =
    in_config b (λ c. record c { confirmation_timeout = timeout })
set_builder_field (rpc_request_timeout timeout) b =
    in_config b (λ c. record c { rpc_request_timeout = timeout })
set_builder_field (poll_interval interval) b =
    in_config b (λ c. record c { poll_interval = interval })
set_builder_field (gas_cache_duration duration) b =
    in_config b (λ c. record c { gas_cache_duration = some duration })
set_builder_field (background_gas_refresh interval) b =
    in_config b (λ c. record c { background_gas_refresh = some interval })
set_builder_field (optimistic_default_gas_price price) b =
    in_config b (λ c. record c { optimistic_default_gas_price = price })
set_builder_field (optimistic_default_gas_limit limit) b =
    in_config b (λ c. record c { optimistic_default_gas_limit = limit })
set_builder_field (use_eip1559 flag) b = in_config b (λ c. record c { use_eip1559 = flag })
set_builder_field gas_provider b = in_config b (λ c. record c { has_gas_provider = true })
set_builder_field (config c) b = record b { config = c }
