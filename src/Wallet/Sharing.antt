-- ===== src/Wallet/Sharing.antt =====
-- One endpoint never gets a second connection pool: `client_for` of src/wallet.rs.
use mathlib.Core.List.{Memᴰ}
use fast_wallet.Base.{
  ℕ, ◌≡◌, refl, sym, ap, ◌∙◌, false, ◌⊎◌, inl, inr, List, [], ◌∷◌, Option, none, some, Bool-cases,
  Option-cases,
}
use fast_wallet.Errors.{Message, ok}
use fast_wallet.Signer.{Keys}
use fast_wallet.Rpc.Warm.{ParsedUrl}
use fast_wallet.Rpc.Send.{is_text}
use fast_wallet.Rpc.Client.{RpcClient}
use fast_wallet.Rpc.Clients.{normalized_url, has_key}
use fast_wallet.Rpc.Verdicts.{ok_same}
use fast_wallet.Rpc.Distinct.{same_text}
use fast_wallet.Rpc.Serves.{url-with_request_timeout}
use fast_wallet.Wallet.Build.{BuiltWallet, batch_clients, client_with, client_for}

some_same {ℓ} : {A : Type ℓ} {a b : A} → some a ≡ some b → a ≡ b
some_same h = cc

module _ (K : Keys) (build_client : ℕ → Option Message) (parse : Message → Option ParsedUrl) where
  -- The clients that a wallet has for its requests and its broadcasts.
  abbrev pub own_clients : BuiltWallet → List RpcClient
  own_clients w = w.rpc_client ∷ batch_clients K build_client parse w.batch_client

  found-client_with :
      (key : Message) (cs : List RpcClient) (c : RpcClient)
      → client_with K build_client parse key cs ≡ some c
      → Memᴰ c cs × (normalized_url parse c.url ≡ key)
  unfolding client_with
  found-client_with key [] c h = cc
  found-client_with key (d ∷ cs) c h =
      elim (Bool-cases (is_text (normalized_url parse d.url) key)) [
        | inl own ↦
            let same : d ≡ c = some_same (rw own at h) in
            (
              Memᴰ.head (sym same),
              ap (λ x. normalized_url parse x.url) (sym same) ∙ same_text _ _ own,
            )
        | inr other ↦
            let (inside, e) = found-client_with key cs c (rw other at h) in (Memᴰ.tail inside, e)
      ]

  missed-client_with :
      (key : Message) (cs : List RpcClient)
      → client_with K build_client parse key cs ≡ none
      → has_key build_client parse key cs ≡ false
  unfolding client_with has_key
  missed-client_with key [] h = refl
  missed-client_with key (d ∷ cs) h = elim (Bool-cases (is_text (normalized_url parse d.url) key)) [
    | inl own ↦ let wrong : some d ≡ none = rw own at h in cc
    | inr other ↦ rw other (missed-client_with key cs (rw other at h))
  ]

  -- When `client_for` gives a client for a URL, it has the URL's normalized URL; and it is the primary or one of the batch's,
  -- or none of these has that normalized URL.
  pub client_for-Shares :
      (w : BuiltWallet) (url : Message) (c : RpcClient)
      → client_for K build_client parse w url ≡ ok c
      → (normalized_url parse c.url ≡ normalized_url parse url)
        × (Memᴰ c (own_clients w)
            ⊎ (has_key build_client parse (normalized_url parse url) (own_clients w) ≡ false))
  unfolding client_for
  client_for-Shares w url c h =
      let key = normalized_url parse url in
      elim (Option-cases (client_with K build_client parse key (own_clients w))) [
        | inl missed ↦ (
          ap (normalized_url parse) (
              url-with_request_timeout build_client parse url w.config.rpc_request_timeout c
                (rw (client_for, missed) at h)),
          inr (missed-client_with key (own_clients w) missed),
        )
        | inr (d, found) ↦
            let same : d ≡ c = ok_same (rw (client_for, found) at h) in
            let (inside, e) = found-client_with key (own_clients w) c (found ∙ ap some same) in
            (e, inl inside)
      ]
