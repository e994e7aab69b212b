-- ===== src/Broadcast/Endpoint.antt =====
-- `RpcEndpoint` of src/broadcast.rs and `endpoint_host` of src/rpc.rs. A duration is a number of
-- milliseconds.
use fast_wallet.Base.{
  ℕ, Bool, true, false, [], ◌∷◌, ◌++◌, any, ◌==◌, if◌then◌else◌, Option, none, some, unwrap_or,
}
use fast_wallet.Errors.{Message}
use fast_wallet.Errors.Text.{codes, split_once, after_last}

pub record RpcEndpoint : Type 0 where
  pub url : Message
  pub auth_header : Option (Message × Message)
  pub is_private : Bool
  pub priority : ℕ
  pub timeout : Option ℕ

-- `url.split_once("://").map_or(url, |(_, rest)| rest)`.
abbrev pub after_scheme : Message → Message
after_scheme url = elim (split_once (codes "://") url) [ some (scheme, rest) ↦ rest | none ↦ url ]

-- `split(['/', '?', '#']).next()`.
unfoldable pub authority : Message → Message
authority [] = []
authority (c ∷ s) = let rest = authority s in if any (◌==◌ c) (codes "/?#") then [] else c ∷ rest

unfoldable pub endpoint_host : Message → Message
unfolding authority
endpoint_host url =
    let host = authority (after_scheme url) in unwrap_or (after_last (codes "@") host) host

unfoldable pub public : Message → RpcEndpoint
public url = record {
  url = url;
  auth_header = none;
  is_private = false;
  priority = 100;
  timeout = none;
}

unfoldable pub private : Message → Message → RpcEndpoint
private url auth_key = record {
  url = url;
  auth_header = some (codes "X-Flashbots-Signature", auth_key);
  is_private = true;
  priority = 50;
  timeout = none;
}

unfoldable pub flashbots : Message → RpcEndpoint
flashbots auth_key = record {
  url = codes "https://relay.flashbots.net";
  auth_header = some (codes "X-Flashbots-Signature", auth_key);
  is_private = true;
  priority = 10;
  timeout = some 5000;
}

unfoldable pub blink : Message → RpcEndpoint
blink api_key = record {
  url = codes "https://eth.blinklabs.xyz/v1/" ++ api_key;
  auth_header = none;
  is_private = false;
  priority = 20;
  timeout = some 3000;
}

unfoldable pub blink_chain : Message → Message → RpcEndpoint
blink_chain chain api_key = record {
  url = codes "https://" ++ chain ++ codes ".blinklabs.xyz/v1/" ++ api_key;
  auth_header = none;
  is_private = false;
  priority = 20;
  timeout = some 3000;
}

unfoldable pub with_priority : RpcEndpoint → ℕ → RpcEndpoint
with_priority e priority = record e { priority = priority }

unfoldable pub with_timeout : RpcEndpoint → ℕ → RpcEndpoint
with_timeout e timeout = record e { timeout = some timeout }
