-- ===== src/Broadcast/Builder.antt =====
-- `BroadcasterBuilder` of src/broadcast.rs and `TransactionBroadcaster::add_endpoint`. The HTTP client of
-- a broadcaster is another crate's: a build fails exactly when that client's does, with its error.
use fast_wallet.Base.{ℕ, List, [], ◌∷◌, ◌++◌, map, leb, if◌then◌else◌}
use fast_wallet.Errors.{Message, WalletResult, ok, ◌>>=◌}
use fast_wallet.Broadcast.Endpoint.{RpcEndpoint, public, flashbots, blink, blink_chain}
use fast_wallet.Broadcast.Presets.{
  llama, publicnode, one_rpc, cloudflare, ankr, drpc, blast, blockpi, omnia, tenderly, merkle,
  bloxroute_virginia, bloxroute_uk, bloxroute_singapore, securerpc, builder0x69, mev_blocker,
  mev_blocker_fast, flashbots_protect, flashbots_fast,
}
use fast_wallet.Broadcast.Strategy.{BroadcastStrategy, race_all}

pub record TransactionBroadcaster : Type 0 where
  pub endpoints : List RpcEndpoint
  pub strategy : BroadcastStrategy
  pub default_timeout : ℕ

pub record BroadcasterBuilder : Type 0 where
  pub endpoints : List RpcEndpoint
  pub strategy : BroadcastStrategy
  pub timeout : ℕ

-- `sort_by_key(|e| e.priority)`, which is stable: an endpoint goes in front of the first that its own
-- priority does not exceed, and the list is sorted from its end.
unfoldable pub insert : RpcEndpoint → List RpcEndpoint → List RpcEndpoint
insert e [] = e ∷ []
insert e (x ∷ xs) =
    let rest = insert e xs in if leb e.priority x.priority then e ∷ x ∷ xs else x ∷ rest

unfoldable pub sort_by_priority : List RpcEndpoint → List RpcEndpoint
unfolding insert
sort_by_priority [] = []
sort_by_priority (e ∷ es) = insert e (sort_by_priority es)

-- `TransactionBroadcaster::new`, with what `Client::builder().build()` returned.
unfoldable pub new_broadcaster :
    WalletResult {0} Unit → List RpcEndpoint → WalletResult TransactionBroadcaster
new_broadcaster client endpoints = client >>= λ c.
    ok (record { endpoints = endpoints; strategy = race_all; default_timeout = 5000 })

unfoldable pub with_strategy : TransactionBroadcaster → BroadcastStrategy → TransactionBroadcaster
with_strategy t strategy = record t { strategy = strategy }

unfoldable pub with_default_timeout : TransactionBroadcaster → ℕ → TransactionBroadcaster
with_default_timeout t timeout = record t { default_timeout = timeout }

-- `TransactionBroadcaster::add_endpoint`.
unfoldable pub add_endpoint : TransactionBroadcaster → RpcEndpoint → TransactionBroadcaster
unfolding sort_by_priority
add_endpoint t e = record t { endpoints = sort_by_priority (t.endpoints ++ e ∷ []) }

unfoldable pub new_builder : BroadcasterBuilder
new_builder = record { endpoints = []; strategy = race_all; timeout = 5000 }

-- `self.endpoints.push(..)`, in a row.
unfoldable pub push_all : BroadcasterBuilder → List RpcEndpoint → BroadcasterBuilder
push_all b es = record b { endpoints = b.endpoints ++ es }

unfoldable pub add_public : BroadcasterBuilder → Message → BroadcasterBuilder
unfolding push_all
add_public b url = push_all b (public url ∷ [])

unfoldable pub add_publics : BroadcasterBuilder → List Message → BroadcasterBuilder
unfolding push_all
add_publics b urls = push_all b (map public urls)

unfoldable pub add_flashbots : BroadcasterBuilder → Message → BroadcasterBuilder
unfolding push_all
add_flashbots b auth_key = push_all b (flashbots auth_key ∷ [])

unfoldable pub add_blink : BroadcasterBuilder → Message → BroadcasterBuilder
unfolding push_all
add_blink b api_key = push_all b (blink api_key ∷ [])

unfoldable pub add_blink_chain : BroadcasterBuilder → Message → Message → BroadcasterBuilder
unfolding push_all
add_blink_chain b chain api_key = push_all b (blink_chain chain api_key ∷ [])

unfoldable pub add_default_public_rpcs : BroadcasterBuilder → BroadcasterBuilder
unfolding push_all
add_default_public_rpcs b =
    push_all b (llama ∷ publicnode ∷ one_rpc ∷ drpc ∷ ankr ∷ cloudflare ∷ [])

unfoldable pub add_all_public_rpcs : BroadcasterBuilder → BroadcasterBuilder
unfolding push_all
add_all_public_rpcs b = push_all b (
    llama ∷ publicnode ∷ one_rpc ∷ drpc ∷ ankr ∷ cloudflare ∷ blast ∷ blockpi ∷ omnia ∷ tenderly
    ∷ merkle ∷ securerpc ∷ builder0x69 ∷ [])

unfoldable pub add_mev_protection : BroadcasterBuilder → BroadcasterBuilder
unfolding push_all
add_mev_protection b =
    push_all b (flashbots_protect ∷ flashbots_fast ∷ mev_blocker ∷ mev_blocker_fast ∷ [])

unfoldable pub add_regional_rpcs : BroadcasterBuilder → BroadcasterBuilder
unfolding push_all
add_regional_rpcs b = push_all b (bloxroute_virginia ∷ bloxroute_uk ∷ bloxroute_singapore ∷ [])

unfoldable pub add_minimal_rpcs : BroadcasterBuilder → BroadcasterBuilder
unfolding push_all
add_minimal_rpcs b = push_all b (llama ∷ publicnode ∷ one_rpc ∷ [])

unfoldable pub add_liquidation_preset : BroadcasterBuilder → BroadcasterBuilder
unfolding add_mev_protection add_regional_rpcs add_default_public_rpcs
add_liquidation_preset b = add_default_public_rpcs (add_regional_rpcs (add_mev_protection b))

-- `BroadcasterBuilder::add_endpoint`.
unfoldable pub add_custom : BroadcasterBuilder → RpcEndpoint → BroadcasterBuilder
unfolding push_all
add_custom b endpoint = push_all b (endpoint ∷ [])

unfoldable pub set_strategy : BroadcasterBuilder → BroadcastStrategy → BroadcasterBuilder
set_strategy b strategy = record b { strategy = strategy }

unfoldable pub set_timeout : BroadcasterBuilder → ℕ → BroadcasterBuilder
set_timeout b timeout = record b { timeout = timeout }

unfoldable pub build_broadcaster :
    WalletResult {0} Unit → BroadcasterBuilder → WalletResult TransactionBroadcaster
unfolding sort_by_priority new_broadcaster with_strategy with_default_timeout
build_broadcaster client b = new_broadcaster client (sort_by_priority b.endpoints) >>= λ t.
    ok (with_default_timeout (with_strategy t b.strategy) b.timeout)
