-- ===== src/Wallet/Routes.antt =====
-- Which endpoints a built wallet sends its transactions to.
use mathlib.Core.List.{Memᴰ}
use mathlib.Core.Path.{subst}
use fast_wallet.Base.{
  ℕ, ◌≡◌, refl, sym, ap, ◌∙◌, Bool, true, false, ◌&&◌, ◌⊎◌, inl, inr, List, [], ◌∷◌, Option, none,
  some, if◌then◌else◌, Bool-cases, Option-cases,
}
use fast_wallet.Errors.{Message, WalletResult, ok}
use fast_wallet.Signer.{Keys, FastSigner, from_hex}
use fast_wallet.Rpc.Warm.{ParsedUrl}
use fast_wallet.Rpc.Client.{RpcClient, with_request_timeout}
use fast_wallet.Rpc.Clients.{normalized_url, has_key, sharing_primary, with_send_timeout}
use fast_wallet.Rpc.Verdicts.{ok_same, err_ok}
use fast_wallet.Rpc.Distinct.{Distinct}
use fast_wallet.Wallet.Config.{FastWalletBuilder, WalletConfig}
use fast_wallet.Wallet.Build.{
  BuiltWallet, is_nil, routes, resolve_broadcast_rpcs, with_known_nonce, new_wallet, with_batch,
  client_for, with_gas_client, build_base, build_wallet,
}
use fast_wallet.Rpc.Serves.{
  bind_ok, Serves, sharing_primary-Serves, url-with_request_timeout, one_client,
}

module _ (build_client : ℕ → Option Message) (parse : Message → Option ParsedUrl) where
  with_batch-Serves :
      (K : Keys) (w w' : BuiltWallet) (urls : List Message)
      → with_batch K build_client parse w urls ≡ ok w'
      → Serves build_client parse urls (routes w')
  unfolding with_batch routes with_send_timeout
  with_batch-Serves K w w' urls h =
      let (batch, e, made) =
        bind_ok (sharing_primary build_client parse w.rpc_client urls w.config.rpc_request_timeout)
          _ h in
      subst (λ x. Serves build_client parse urls (routes x)) (ok_same made)
        (sharing_primary-Serves build_client parse w.rpc_client urls w.config.rpc_request_timeout
          batch e)

  routes-with_gas_client :
      (K : Keys) (url : Option Message) (w w' : BuiltWallet)
      → with_gas_client K build_client parse url w ≡ ok w'
      → routes w ≡ routes w'
  unfolding with_gas_client routes
  routes-with_gas_client K none w w' h = ap routes (ok_same h)
  routes-with_gas_client K (some url) w w' h =
      let (client, e, made) = bind_ok (client_for K build_client parse w url) _ h in
      ap routes (ok_same made)

  -- A wallet without a batch client, its primary client being that of the URL.
  record Plain (url : Message) (w : BuiltWallet) : Type 0 where
    no_batch : w.batch_client ≡ none
    primary : w.rpc_client.url ≡ url

  with_known_nonce-Plain :
      (K : Keys) (key url : Message) (n : ℕ) (config : WalletConfig) (w : BuiltWallet)
      → with_known_nonce K build_client parse key url n config ≡ ok w
      → Plain url w
  unfolding with_known_nonce
  with_known_nonce-Plain K key url n config w h =
      let (signer, e, more) = bind_ok (from_hex K key) _ h in
      let (client, built, made) =
        bind_ok (with_request_timeout build_client parse url config.rpc_request_timeout) _ more in
      subst (Plain url) (ok_same made) (record {
        no_batch = refl;
        primary =
            url-with_request_timeout build_client parse url config.rpc_request_timeout client built;
      })

  new_wallet-Plain :
      (K : Keys) (chain : FastSigner → WalletResult ℕ) (key url : Message) (config : WalletConfig)
      (w : BuiltWallet)
      → new_wallet K build_client parse chain key url config ≡ ok w
      → Plain url w
  unfolding new_wallet
  new_wallet-Plain K chain key url config w h =
      let (signer, e, more) = bind_ok (from_hex K key) _ h in
      let (client, built, rest) =
        bind_ok (with_request_timeout build_client parse url config.rpc_request_timeout) _ more in
      let (nonce, answered, made) = bind_ok (chain signer) _ rest in
      subst (Plain url) (ok_same made) (record {
        no_batch = refl;
        primary =
            url-with_request_timeout build_client parse url config.rpc_request_timeout client built;
      })

  exclusive_off : (x : Bool) → (x && true) ≡ false → x ≡ false
  exclusive_off true h = h
  exclusive_off false h = h

  -- The URLs that a builder asks for: its list's, and the primary's unless the list is exclusive.
  abbrev pub Wanted : FastWalletBuilder → Message → Type 0
  Wanted b url =
      Memᴰ url b.broadcast_rpcs ⊎ ((b.exclusive_broadcast ≡ false) × (url ≡ b.primary_rpc))

  wanted_of :
      (exclusive : Bool) (url primary : Message) (rpcs : List Message)
      → Memᴰ url (resolve_broadcast_rpcs primary rpcs exclusive)
      → Memᴰ url rpcs ⊎ ((exclusive ≡ false) × (url ≡ primary))
  unfolding resolve_broadcast_rpcs
  wanted_of true url primary rpcs m = inl m
  wanted_of false url primary rpcs (Memᴰ.head e) = inr (refl, e)
  wanted_of false url primary rpcs (Memᴰ.tail m) = inl m

  resolved_of :
      (exclusive : Bool) (url primary : Message) (rpcs : List Message)
      → Memᴰ url rpcs ⊎ ((exclusive ≡ false) × (url ≡ primary))
      → Memᴰ url (resolve_broadcast_rpcs primary rpcs exclusive)
  unfolding resolve_broadcast_rpcs
  resolved_of true url primary rpcs (inl m) = m
  resolved_of true url primary rpcs (inr (off, e)) = cc
  resolved_of false url primary rpcs (inl m) = Memᴰ.tail m
  resolved_of false url primary rpcs (inr (off, e)) = Memᴰ.head e

  module _ (K : Keys) (b : FastWalletBuilder) where
    -- With the wallet without a batch, what the builder makes of it.
    unfoldable pub routed : BuiltWallet → WalletResult BuiltWallet
    routed w =
        if is_nil b.broadcast_rpcs
        then ok w
        else with_batch K build_client parse w
            (resolve_broadcast_rpcs b.primary_rpc b.broadcast_rpcs b.exclusive_broadcast)

    routed-Serves :
        (rpcs : List Message) (w w' : BuiltWallet)
        → b.broadcast_rpcs ≡ rpcs
        → (b.exclusive_broadcast && is_nil rpcs) ≡ false
        → Plain b.primary_rpc w
        → routed w ≡ ok w'
        → Serves build_client parse
            (resolve_broadcast_rpcs b.primary_rpc rpcs b.exclusive_broadcast)
            (routes w')
    unfolding routed routes resolve_broadcast_rpcs
    routed-Serves [] w w' e shared p h =
        let alone : routes w ≡ w.rpc_client ∷ [] = rw (p.no_batch, routes) refl in
        let same : w ≡ w' = ok_same (rw e at h) in
        rw (exclusive_off _ shared, resolve_broadcast_rpcs)
          (subst (Serves build_client parse (b.primary_rpc ∷ [])) (sym alone ∙ ap routes same)
            (one_client build_client parse w.rpc_client b.primary_rpc p.primary))
    routed-Serves (u ∷ us) w w' e shared p h = with_batch-Serves K w w' _ (rw e at h)

    base_routed :
        (chain : FastSigner → WalletResult ℕ) (w : BuiltWallet)
        → build_base K build_client parse b chain ≡ ok w
        → (w0 : BuiltWallet) × Plain b.primary_rpc w0 × (routed w0 ≡ ok w)
    unfolding build_base routed
    base_routed chain w h = elim (Option-cases b.initial_nonce) [
      | inl unset ↦ elim (Bool-cases (is_nil b.broadcast_rpcs)) [
        | inl alone ↦
            let made = rw (unset, alone) at h in
            (w, new_wallet-Plain K chain _ _ b.config w made, rw alone refl)
        | inr several ↦
            let (w0, e, more) =
              bind_ok (new_wallet K build_client parse chain b.private_key b.primary_rpc b.config) _
                (rw (unset, several) at h) in
            (w0, new_wallet-Plain K chain _ _ b.config w0 e, rw several more)
      ]
      | inr (n, given) ↦
          let (w0, e, more) =
            bind_ok (with_known_nonce K build_client parse b.private_key b.primary_rpc n b.config) _
              (rw given at h) in
          (w0, with_known_nonce-Plain K _ _ n b.config w0 e, more)
    ]

    -- Whatever the chain answers: a wallet that the builder makes sends its transactions to exactly the endpoints that were
    -- asked for, up to the spelling of URLs: each client that it sends to has the normalized URL of one of the
    -- list, or of the primary if the list is not exclusive; each of those URLs has a client; and no two clients
    -- have the same normalized URL.
    pub build-Serves :
        (chain : FastSigner → WalletResult ℕ) (w : BuiltWallet)
        → build_wallet K build_client parse b chain ≡ ok w
        → ((c : RpcClient)
            → Memᴰ c (routes w)
            → (url : Message) × Wanted b url
              × (normalized_url parse c.url ≡ normalized_url parse url))
          × ((url : Message)
              → Wanted b url
              → has_key build_client parse (normalized_url parse url) (routes w) ≡ true)
          × Distinct build_client parse (routes w)
    unfolding build_wallet
    build-Serves chain w h = elim (Bool-cases (b.exclusive_broadcast && is_nil b.broadcast_rpcs)) [
      | inl empty ↦ absurd (err_ok (rw empty at h))
      | inr fine ↦
          let (w1, e, gas) = bind_ok (build_base K build_client parse b chain) _ (rw fine at h) in
          let (w0, plain, made) = base_routed chain w1 e in
          let s =
            subst
              (Serves build_client parse
                (resolve_broadcast_rpcs b.primary_rpc b.broadcast_rpcs b.exclusive_broadcast))
              (routes-with_gas_client K b.gas_rpc_url w1 w gas)
              (routed-Serves b.broadcast_rpcs w0 w1 refl fine plain made) in
          (
            λ c m.
                let (url, inside, same) = s.only c m in
                (
                  url,
                  wanted_of b.exclusive_broadcast url b.primary_rpc b.broadcast_rpcs inside,
                  same,
                ),
            λ url wanted.
                s.every url
                  (resolved_of b.exclusive_broadcast url b.primary_rpc b.broadcast_rpcs wanted),
            s.distinct,
          )
    ]
