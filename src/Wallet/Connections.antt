-- ===== src/Wallet/Connections.antt =====
-- `warmup_connections` of src/wallet.rs, with the preheats that run beside it. A client that the wallet holds in two
-- places is one object there; here, what changes it in one place is passed on to the other by its normalized URL.
use fast_wallet.Base.{
  ℕ, ◌-◌, ◌<◌, ◌≡◌, refl, ap, ◌∙◌, true, false, Bool, List, [], ◌∷◌, map, Option, none, some,
  if◌then◌else◌, Bool-cases, inl, inr, ltb, wrapping_add, arith,
}
use fast_wallet.Errors.{Message}
use fast_wallet.Signer.{Keys}
use fast_wallet.Rpc.Warm.{ParsedUrl, probe_due, mark_success, loss_guard, disarm, drop_guard}
use fast_wallet.Rpc.Send.{is_text}
use fast_wallet.Rpc.Client.{
  RpcClient, should_skip_warmup, warmup, request, next_id, mark_request_started, answer_result,
  marked, answers,
}
use fast_wallet.Rpc.Clients.{BatchRpcClient, normalized_url}
use fast_wallet.Rpc.Distinct.{is_text_refl}
use fast_wallet.Rpc.Verdicts.{is_ok}
use fast_wallet.Rpc.Warmups.{
  Probes, warm_one, warm_each, batch_warmup, url-warmup, warmup-skips, warmup-due,
}
use fast_wallet.Wallet.Build.{BuiltWallet, client_with}
use fast_wallet.Wallet.Preheat.{PreheatedContext}
use fast_wallet.Wallet.Presend.{Fetched, preheat, preheat_warmup_only}

module _ (K : Keys) (build_client : ℕ → Option Message) (parse : Message → Option ParsedUrl) where
  -- A client, behind a change of one that may be the same object.
  abbrev pub seen : RpcClient → RpcClient → RpcClient
  seen changed c =
      if is_text (normalized_url parse c.url) (normalized_url parse changed.url) then changed else c

  abbrev found_or : RpcClient → Option RpcClient → RpcClient
  found_or c none = c
  found_or c (some d) = d

  -- A client, behind changes of those of the list.
  abbrev pub newest : List RpcClient → RpcClient → RpcClient
  newest cs c = found_or c (client_with K build_client parse (normalized_url parse c.url) cs)

  abbrev newest_of : List RpcClient → Option RpcClient → Option RpcClient
  newest_of cs none = none
  newest_of cs (some c) = some (newest cs c)

  -- The primary first, then the batch. The time of each probe, and what becomes of it, are arguments.
  unfoldable pub warmup_connections : BuiltWallet → Probes → Probes → BuiltWallet × (Bool × ℕ)
  unfolding warmup batch_warmup client_with
  warmup_connections w first probes =
      let (primary, result) = warm_one first w.rpc_client in
      elim w.batch_client [
        | none ↦ (
          record w {
            rpc_client = primary;
            gas_rpc_client = newest_of (primary ∷ []) w.gas_rpc_client;
          },
          (is_ok result, 0),
        )
        | some batch ↦
            let (batch', n) =
              batch_warmup probes (record batch { clients = map (seen primary) batch.clients }) in
            (
              record w {
                rpc_client = newest batch'.clients primary;
                gas_rpc_client =
                    newest_of (newest batch'.clients primary ∷ batch'.clients) w.gas_rpc_client;
                batch_client = some batch';
              },
              (is_ok result, n),
            )
      ]

  -- `preheat_full` and `preheat_full_warmup_only`: the two futures change different parts of the wallet.
  unfoldable pub preheat_full :
      BuiltWallet → Probes → Probes → Fetched → ℕ → BuiltWallet × PreheatedContext
  unfolding warmup_connections preheat
  preheat_full w first probes fetched now =
      let (warm, found) = warmup_connections w first probes in
      let (state, ctx) = preheat warm.state fetched now in (record warm { state = state }, ctx)

  unfoldable pub preheat_full_warmup_only :
      BuiltWallet → Probes → Probes → Fetched → ℕ → BuiltWallet × PreheatedContext
  unfolding warmup_connections preheat_warmup_only
  preheat_full_warmup_only w first probes fetched now =
      ((warmup_connections w first probes).0, preheat_warmup_only fetched now)

  newest-own :
      (p d : RpcClient) (ds : List RpcClient)
      → is_text (normalized_url parse d.url) (normalized_url parse p.url) ≡ true
      → newest (d ∷ ds) p ≡ d
  unfolding client_with
  newest-own p d ds own = rw own refl

  newest-other :
      (p d : RpcClient) (ds : List RpcClient)
      → is_text (normalized_url parse d.url) (normalized_url parse p.url) ≡ false
      → newest (d ∷ ds) p ≡ newest ds p
  unfolding client_with
  newest-other p d ds other = rw other refl

  -- A client of the batch behind its warmup: the primary itself, when its warmup is skipped, or one of another URL.
  warmed-seen :
      (probes : Probes) (p c : RpcClient) (ds : List RpcClient)
      → should_skip_warmup p (probes p.url).1 ≡ true
      → newest ds p ≡ p
      → newest ((warm_one probes (seen p c)).0 ∷ ds) p ≡ p
  warmed-seen probes p c ds spared rest =
      elim (Bool-cases (is_text (normalized_url parse c.url) (normalized_url parse p.url))) [
        | inl own ↦
            let same : seen p c ≡ p = rw own refl in
            let kept : (warm_one probes (seen p c)).0 ≡ p =
              ap (λ d. (warm_one probes d).0) same
              ∙ ap (λ x. x.0) (warmup-skips p (probes p.url).0 (probes p.url).1 spared) in
            ap (λ d. newest (d ∷ ds) p) kept
            ∙ newest-own p p ds (is_text_refl (normalized_url parse p.url))
        | inr other ↦
            let same : seen p c ≡ c = rw other refl in
            let url : (warm_one probes (seen p c)).0.url ≡ c.url =
              ap (λ d. (warm_one probes d).0.url) same
              ∙ url-warmup c (probes c.url).0 (probes c.url).1 in
            newest-other p _ ds
              (ap (λ u. is_text (normalized_url parse u) (normalized_url parse p.url)) url ∙ other)
            ∙ rest
      ]

  newest-warm_each :
      (probes : Probes) (p : RpcClient) (cs : List RpcClient)
      → should_skip_warmup p (probes p.url).1 ≡ true
      → newest (warm_each probes (map (seen p) cs)).0 p ≡ p
  unfolding warm_each client_with
  newest-warm_each probes p [] spared = refl
  newest-warm_each probes p (c ∷ cs) spared =
      warmed-seen probes p c _ spared (newest-warm_each probes p cs spared)

  primary-of-batch :
      (w : BuiltWallet) (first probes : Probes) (batch : Option BatchRpcClient)
      → w.batch_client ≡ batch
      → should_skip_warmup
          (warm_one first w.rpc_client).0
          (probes (warm_one first w.rpc_client).0.url).1
        ≡ true
      → (warmup_connections w first probes).0.rpc_client ≡ (warm_one first w.rpc_client).0
  unfolding warmup_connections batch_warmup
  primary-of-batch w first probes none e spared = rw e refl
  primary-of-batch w first probes (some batch) e spared =
      rw e (newest-warm_each probes (warm_one first w.rpc_client).0 batch.clients spared)

  -- The primary, when its own warmup has asked and was answered.
  abbrev pub answered : BuiltWallet → Probes → RpcClient
  answered w first =
      let c = w.rpc_client in
      record c {
        request_id = wrapping_add c.request_id 1;
        request_seen = true;
        warm = record c.warm { last_success = some (first c.url).1 };
      }

  warm_one-answered :
      (w : BuiltWallet) (first : Probes) (id : Message)
      → should_skip_warmup w.rpc_client (first w.rpc_client.url).1 ≡ false
      → (first w.rpc_client.url).0 ≡ answers none (some id)
      → (warm_one first w.rpc_client).0 ≡ answered w first
  unfolding request next_id mark_request_started answer_result marked mark_success loss_guard disarm
      drop_guard
  warm_one-answered w first id due reply =
      let c = w.rpc_client in
      ap (λ x. x.0) (warmup-due c (first c.url).0 (first c.url).1 due)
      ∙ ap (λ e. (request c e (first c.url).1).0) reply

  skips-answered :
      (w : BuiltWallet) (first : Probes) (now : ℕ)
      → now - (first w.rpc_client.url).1 < w.rpc_client.warm.window
      → should_skip_warmup (answered w first) now ≡ true
  unfolding should_skip_warmup probe_due
  skips-answered w first now soon =
      let fresh : ltb (now - (first w.rpc_client.url).1) w.rpc_client.warm.window ≡ true =
        ground arith in
      rw fresh refl

  -- When a probe of the primary is due and is answered with a result, and the batch probes that URL within the
  -- primary's window after that: the primary has sent exactly one request more afterwards, and its last success is
  -- the time of that answer. So the batch's warmup does not ask it again, whether or not it holds the primary, and whatever
  -- becomes of the batch's other probes.
  pub warmup_connections_probes_once :
      (w : BuiltWallet) (first probes : Probes) (id : Message)
      → should_skip_warmup w.rpc_client (first w.rpc_client.url).1 ≡ false
      → (first w.rpc_client.url).0 ≡ answers none (some id)
      → (probes w.rpc_client.url).1 - (first w.rpc_client.url).1 < w.rpc_client.warm.window
      → (warmup_connections w first probes).0.rpc_client ≡ record (w.rpc_client) {
        request_id = wrapping_add w.rpc_client.request_id 1;
        request_seen = true;
        warm = record (w.rpc_client.warm) { last_success = some (first w.rpc_client.url).1 };
      }
  warmup_connections_probes_once w first probes id due reply soon =
      let once = warm_one-answered w first id due reply in
      let spared = skips-answered w first (probes w.rpc_client.url).1 soon in
      primary-of-batch w first probes w.batch_client refl
        (ap (λ c. should_skip_warmup c (probes c.url).1) once ∙ spared)
      ∙ once
