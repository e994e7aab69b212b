-- ===== src/Broadcast/Presets.antt =====
-- The built-in endpoints of src/broadcast.rs.
use fast_wallet.Base.{true, none, some}
use fast_wallet.Errors.Text.{codes}
use fast_wallet.Broadcast.Endpoint.{RpcEndpoint, public, with_priority}

unfoldable pub llama : RpcEndpoint
llama = with_priority (public (codes "https://eth.llamarpc.com")) 30

unfoldable pub publicnode : RpcEndpoint
publicnode = with_priority (public (codes "https://ethereum-rpc.publicnode.com")) 30

unfoldable pub one_rpc : RpcEndpoint
one_rpc = with_priority (public (codes "https://1rpc.io/eth")) 35

unfoldable pub cloudflare : RpcEndpoint
cloudflare = with_priority (public (codes "https://cloudflare-eth.com")) 40

unfoldable pub ankr : RpcEndpoint
ankr = with_priority (public (codes "https://rpc.ankr.com/eth")) 40

unfoldable pub drpc : RpcEndpoint
drpc = with_priority (public (codes "https://eth.drpc.org")) 35

unfoldable pub blast : RpcEndpoint
blast = with_priority (public (codes "https://eth-mainnet.public.blastapi.io")) 40

unfoldable pub blockpi : RpcEndpoint
blockpi = with_priority (public (codes "https://ethereum.blockpi.network/v1/rpc/public")) 45

unfoldable pub omnia : RpcEndpoint
omnia = with_priority (public (codes "https://endpoints.omniatech.io/v1/eth/mainnet/public")) 45

unfoldable pub tenderly : RpcEndpoint
tenderly = with_priority (public (codes "https://gateway.tenderly.co/public/mainnet")) 40

unfoldable pub merkle : RpcEndpoint
merkle = with_priority (public (codes "https://eth.merkle.io")) 45

unfoldable pub bloxroute_virginia : RpcEndpoint
bloxroute_virginia = with_priority (public (codes "https://virginia.rpc.blxrbdn.com")) 30

unfoldable pub bloxroute_uk : RpcEndpoint
bloxroute_uk = with_priority (public (codes "https://uk.rpc.blxrbdn.com")) 30

unfoldable pub bloxroute_singapore : RpcEndpoint
bloxroute_singapore = with_priority (public (codes "https://singapore.rpc.blxrbdn.com")) 30

unfoldable pub securerpc : RpcEndpoint
securerpc = with_priority (public (codes "https://api.securerpc.com/v1")) 40

unfoldable pub builder0x69 : RpcEndpoint
builder0x69 = with_priority (public (codes "https://rpc.builder0x69.io")) 35

unfoldable pub mev_blocker : RpcEndpoint
mev_blocker = record {
  url = codes "https://rpc.mevblocker.io";
  auth_header = none;
  is_private = true;
  priority = 25;
  timeout = some 5000;
}

unfoldable pub mev_blocker_fast : RpcEndpoint
mev_blocker_fast = record {
  url = codes "https://rpc.mevblocker.io/fast";
  auth_header = none;
  is_private = true;
  priority = 20;
  timeout = some 3000;
}

unfoldable pub flashbots_protect : RpcEndpoint
flashbots_protect = record {
  url = codes "https://rpc.flashbots.net";
  auth_header = none;
  is_private = true;
  priority = 15;
  timeout = some 5000;
}

unfoldable pub flashbots_fast : RpcEndpoint
flashbots_fast = record {
  url = codes "https://rpc.flashbots.net/fast";
  auth_header = none;
  is_private = true;
  priority = 12;
  timeout = some 3000;
}
