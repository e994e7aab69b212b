-- ===== src/Rpc/Clients.antt =====
-- `BatchRpcClient` of src/rpc/batch.rs: its clients, one for each endpoint, and the round robin over them. The
-- clients that a batch shares with the wallet are named by their URLs.
use fast_wallet.Base.{
  ℕ, ◌%◌, Bool, List, [], ◌∷◌, ◌++◌, any, length, get_elem?, Option, none, some, wrapping_add,
  if◌then◌else◌,
}
use fast_wallet.Errors.{Message, WalletResult, ok, ◌>>=◌}
use fast_wallet.Rpc.Warm.{ParsedUrl}
use fast_wallet.Rpc.Client.{RpcClient, with_request_timeout}
use fast_wallet.Rpc.Send.{is_text}

pub record BatchRpcClient : Type 0 where
  pub clients : List RpcClient
  pub current : ℕ
  pub send_timeout : ℕ

abbrev pub default_broadcast_send_timeout : ℕ
default_broadcast_send_timeout = 6000

abbrev printed_or : Message → Option ParsedUrl → Message
printed_or url none = url
printed_or url (some u) = u.printed

-- Text that does not parse is its own key.
unfoldable pub normalized_url : (Message → Option ParsedUrl) → Message → Message
normalized_url parse url = printed_or url (parse url)

module _ (build_client : ℕ → Option Message) (parse : Message → Option ParsedUrl) where
  -- A client of the list has the key.
  unfoldable pub has_key : Message → List RpcClient → Bool
  unfolding normalized_url
  has_key key clients = any (λ c. is_text (normalized_url parse c.url) key) clients

  -- The primary client for its own key, else a client that is built.
  unfoldable pub client_of : RpcClient → ℕ → Message → WalletResult RpcClient
  unfolding normalized_url with_request_timeout
  client_of primary request_timeout url =
      if is_text (normalized_url parse primary.url) (normalized_url parse url)
      then ok primary
      else with_request_timeout build_client parse url request_timeout

  -- The loop of `sharing_primary`, behind the clients so far.
  unfoldable pub share_from :
      RpcClient → ℕ → List RpcClient → List Message → WalletResult (List RpcClient)
  unfolding has_key client_of
  share_from primary request_timeout clients [] = ok clients
  share_from primary request_timeout clients (url ∷ urls) =
      let skipped = share_from primary request_timeout clients urls in
      if has_key (normalized_url parse url) clients
      then skipped
      else (client_of primary request_timeout url >>= λ client.
          share_from primary request_timeout (clients ++ (client ∷ [])) urls)

  unfoldable pub sharing_primary : RpcClient → List Message → ℕ → WalletResult BatchRpcClient
  unfolding share_from
  sharing_primary primary urls request_timeout =
      share_from primary request_timeout [] urls >>= λ clients.
      ok (record { clients = clients; current = 0; send_timeout = default_broadcast_send_timeout })

  -- The clients of `BatchRpcClient::new`, one for each URL, and the first error.
  unfoldable pub build_all : List Message → WalletResult (List RpcClient)
  unfolding with_request_timeout
  build_all [] = ok []
  build_all (url ∷ urls) = with_request_timeout build_client parse url 30_000 >>= λ client.
      build_all urls >>= λ clients. ok (client ∷ clients)

  unfoldable pub new_batch : List Message → WalletResult BatchRpcClient
  unfolding build_all
  new_batch urls = build_all urls >>= λ clients.
      ok (record { clients = clients; current = 0; send_timeout = default_broadcast_send_timeout })

unfoldable pub with_send_timeout : BatchRpcClient → ℕ → BatchRpcClient
with_send_timeout b timeout = record b { send_timeout = timeout }

-- Without clients the remainder panics.
unfoldable pub next_client : BatchRpcClient → BatchRpcClient × Option RpcClient
next_client b = (
  record b { current = wrapping_add b.current 1 },
  elim b.clients [ [] ↦ none | c ∷ cs ↦ get_elem? (c ∷ cs) (b.current % length (c ∷ cs)) ],
)

unfoldable pub endpoint_count : BatchRpcClient → ℕ
endpoint_count b = length b.clients
