-- ===== src/Wallet/Tests/Builds.antt =====
-- Building wallets: a private list of endpoints, and a list that the primary belongs to.
use mathlib.Core.List.{Memᴰ}
use fast_wallet.Base.{
  ℕ, ◌*◌, ◌≤◌, ◌≡◌, ◌↔◌, ◌⊎◌, ◌&&◌, leb, arith, refl, true, false, [], ◌∷◌, inr, Option, none, some,
  u64_mod,
}
use fast_wallet.Errors.{Message, WalletResult, ok}
use fast_wallet.Errors.Text.{codes, strip_prefix}
use fast_wallet.Transaction.{Bytes}
use fast_wallet.Transaction.Sign.{signature}
use fast_wallet.Tracker.Invariant.{new-IsValid}
use fast_wallet.Tracker.Availability.{available}
use fast_wallet.Signer.{Keys, FastSigner}
use fast_wallet.Rpc.Warm.{ParsedUrl}
use fast_wallet.Rpc.Client.{RpcClient, Exchange, should_skip_warmup}
use fast_wallet.Rpc.Warmups.{Probes}
use fast_wallet.Rpc.Clients.{normalized_url, has_key}
use fast_wallet.Rpc.Distinct.{Distinct}
use fast_wallet.Wallet.Config.{FastWalletBuilder, new_wallet_builder, broadcast_rpcs_exclusive}
use fast_wallet.Wallet.Build.{BuiltWallet, routes, client_for, build_wallet}
use fast_wallet.Wallet.Routes.{Wanted, build-Serves}
use fast_wallet.Wallet.Sharing.{own_clients, client_for-Shares}
use fast_wallet.Wallet.Status.{self_check, wei_per_eth}
use fast_wallet.Wallet.Checked.{self_check_panics}
use fast_wallet.Wallet.Connections.{warmup_connections, warmup_connections_probes_once}
use fast_wallet.Wallet.Tests.{constant_rlp}

abbrev key : Bytes
key =
    1 ∷ 2 ∷ 3 ∷ 4 ∷ 5 ∷ 6 ∷ 7 ∷ 8 ∷ 1 ∷ 2 ∷ 3 ∷ 4 ∷ 5 ∷ 6 ∷ 7 ∷ 8 ∷ 1 ∷ 2 ∷ 3 ∷ 4 ∷ 5 ∷ 6 ∷ 7 ∷ 8
    ∷ 1 ∷ 2 ∷ 3 ∷ 4 ∷ 5 ∷ 6 ∷ 7 ∷ 8 ∷ []

abbrev keys : Keys
keys = record {
  decode = λ s. inr s;
  keccak256 = λ b. key;
  rlp = constant_rlp;
  public_key = λ k. inr (4 ∷ k);
  sign_prehash = λ k h. signature [] 0;
}

abbrev builds : ℕ → Option Message
builds limit = none

-- No URL parses: each is its own key.
abbrev parse : Message → Option ParsedUrl
parse url = none

abbrev private_builder : FastWalletBuilder
private_builder =
    broadcast_rpcs_exclusive (new_wallet_builder key (codes "public"))
      (codes "relay" ∷ codes "other" ∷ codes "relay" ∷ [])

abbrev plain : Message → RpcClient
plain url = record {
  url = url;
  request_id = 1;
  request_seen = false;
  warm = record { window = 60_000; last_success = none };
}

abbrev made : BuiltWallet
made = record {
  signer = record {
    signing_key = key;
    address = 5 ∷ 6 ∷ 7 ∷ 8 ∷ 1 ∷ 2 ∷ 3 ∷ 4 ∷ 5 ∷ 6 ∷ 7 ∷ 8 ∷ 1 ∷ 2 ∷ 3 ∷ 4 ∷ 5 ∷ 6 ∷ 7 ∷ 8 ∷ [];
  };
  state = record { tracker = fast_wallet.Tracker.new 9; inflight = []; last_stall_replace = none };
  rpc_client = plain (codes "public");
  gas_rpc_client = none;
  batch_client = some (record {
    clients = plain (codes "relay") ∷ plain (codes "other") ∷ [];
    current = 0;
    send_timeout = 6000;
  });
  pending_permits = 100;
  gas_caches = record { gas_price_cache = none; priority_fee_cache = none };
  warmed_up = false;
  config = private_builder.config;
}

abbrev answers : FastSigner → WalletResult ℕ
answers signer = ok 9

made_run : build_wallet keys builds parse private_builder answers ≡ ok made
unfolding build_wallet new_wallet_builder broadcast_rpcs_exclusive strip_prefix
    fast_wallet.Tracker.new
made_run = refl

build-Serves_example :
    ((c : RpcClient)
      → Memᴰ c (routes made)
      → (url : Message) × Wanted builds parse private_builder url
        × (normalized_url parse c.url ≡ normalized_url parse url))
    × ((url : Message)
        → Wanted builds parse private_builder url
        → has_key builds parse (normalized_url parse url) (routes made) ≡ true)
    × Distinct builds parse (routes made)
build-Serves_example = build-Serves builds parse keys private_builder answers made made_run

gas_run : client_for keys builds parse made (codes "relay") ≡ ok (plain (codes "relay"))
unfolding client_for normalized_url fast_wallet.Wallet.Build.client_with
gas_run = refl

client_for-Shares_example :
    (normalized_url parse (codes "relay") ≡ normalized_url parse (codes "relay"))
    × (Memᴰ (plain (codes "relay")) (own_clients keys builds parse made)
        ⊎ (has_key builds parse
              (normalized_url parse (codes "relay"))
              (own_clients keys builds parse made)
            ≡ false))
client_for-Shares_example =
    client_for-Shares keys builds parse made (codes "relay") (plain (codes "relay")) gas_run

self_check_panics_example :
    (((self_check true made (ok (u64_mod * wei_per_eth)) (ok 12)).1 ≡ none)
      ↔ ((true ≡ true) × (u64_mod * wei_per_eth ≤ u64_mod * wei_per_eth)))
    × ((m : ℕ)
        → available (self_check true made (ok (u64_mod * wei_per_eth)) (ok 12)).0.state.tracker m
          ≡ (available made.state.tracker m && leb 12 m))
self_check_panics_example =
    self_check_panics true made (u64_mod * wei_per_eth) 12 (new-IsValid 9 (omega arith))

-- The broadcasts go to the primary too.
abbrev shared : BuiltWallet
shared = record made {
  batch_client = some (record {
    clients = plain (codes "relay") ∷ plain (codes "public") ∷ [];
    current = 0;
    send_timeout = 6000;
  });
}

abbrev at : ℕ → Probes
at now url = (Exchange.answers none (some (codes "0x1")), now)

-- Both endpoints are counted, and each is probed once.
connections_run : (warmup_connections keys builds parse shared (at 5) (at 20)).1 ≡ (true, 2)
unfolding warmup_connections
connections_run = refl

warmup_connections_probes_once_example :
    (warmup_connections keys builds parse shared (at 5) (at 20)).0.rpc_client
    ≡ record (plain (codes "public")) {
      request_id = 2;
      request_seen = true;
      warm = record { window = 60_000; last_success = some 5 };
    }
unfolding should_skip_warmup
warmup_connections_probes_once_example =
    warmup_connections_probes_once keys builds parse shared (at 5) (at 20) (codes "0x1") refl refl
      (omega arith)
