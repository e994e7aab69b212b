-- ===== src/Broadcast/Tests/Links.antt =====
-- One endpoint of the broadcaster, and the theorems on what spares its probes.
use fast_wallet.Base.{◌-◌, ◌≡◌, ◌≢◌, ◌⊎◌, refl, true, false, [], ◌∷◌, Option, none, some, ltb, inr}
use fast_wallet.Errors.{Message, ok}
use fast_wallet.Errors.Text.{codes}
use fast_wallet.Broadcast.Endpoint.{RpcEndpoint}
use fast_wallet.Broadcast.Links.{
  Links, late, answers, find_warm, warm_state, warm_skips, warmup_endpoint, send_to_endpoint,
}
use fast_wallet.Broadcast.Spared.{send_to_endpoint-Spares, warmup_endpoint-Spares}
use fast_wallet.Rpc.Warm.{ParsedUrl}
use fast_wallet.Rpc.Send.{HashTools}

abbrev parse : Message → Option ParsedUrl
parse url = none

abbrev tools : HashTools
tools = record { decode = λ s. inr s; keccak256 = λ b. b; debug = λ b. b }

abbrev endpoint : RpcEndpoint
endpoint = record {
  url = codes "https://a.test";
  auth_header = none;
  is_private = false;
  priority = 100;
  timeout = none;
}

abbrev links : Links
links = record {
  warm = (codes "https://b.test", record { window = 60_000; last_success = some 10 }) ∷ [];
  request_id = 1;
}

-- An empty answer spares the endpoint its next probe.
empty_run :
    warm_skips parse endpoint.url
      (send_to_endpoint parse tools links endpoint (7 ∷ []) (answers none none) 100).0.warm
      30_000
    ≡ true
unfolding send_to_endpoint fast_wallet.Errors.Text.strip_prefix find_warm
    fast_wallet.Broadcast.Links.store_warm warm_skips
empty_run = refl

send_to_endpoint-Spares_example :
    (warm_skips parse endpoint.url
        (send_to_endpoint parse tools links endpoint (7 ∷ []) (answers none none) 100).0.warm
        30_000
      ≡ ltb (30_000 - 100) (warm_state parse endpoint.url links.warm).window)
    × ((v : Message)
        → v ≢ endpoint.url
        → find_warm v
            (send_to_endpoint parse tools links endpoint (7 ∷ []) (answers none none) 100).0.warm
          ≡ find_warm v links.warm)
send_to_endpoint-Spares_example =
    send_to_endpoint-Spares parse tools links endpoint (7 ∷ []) (answers none none) 100 30_000

-- A late probe leaves the endpoint without its window.
warmup_case :
    ((warm_skips parse endpoint.url links.warm 50 ≡ true)
      × (warmup_endpoint parse links endpoint late 50 80 ≡ (links, some (ok tt))))
    ⊎ ((warm_skips parse endpoint.url links.warm 50 ≡ false)
        × (warm_skips parse endpoint.url
              (warmup_endpoint parse links endpoint late 50 80).0.warm
              200
            ≡ false))
warmup_case = warmup_endpoint-Spares parse links endpoint late 50 80 200
