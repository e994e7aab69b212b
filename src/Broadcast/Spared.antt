-- ===== src/Broadcast/Spared.antt =====
-- Which sends and warmups of the broadcaster spare an endpoint its next probe.
use fast_wallet.Base.{
  ℕ, ◌-◌, ◌≡◌, ◌≢◌, refl, sym, ap, ◌∙◌, Bool, true, false, Option, none, some, ltb, Bool-cases, inl,
  inr, ◌⊎◌,
}
use fast_wallet.Errors.{Message, WalletResult, ok}
use fast_wallet.Broadcast.Endpoint.{RpcEndpoint}
use fast_wallet.Rpc.Warm.{ParsedUrl}
use fast_wallet.Rpc.Send.{HashTools, is_text}
use fast_wallet.Broadcast.Links.{
  Links, CallOutcome, late, dropped, send_fails, body_fails, answers, find_warm, broadcast_next_id,
  warm_state, warm_skips, call, warmed, warmup_endpoint, sent, send_to_endpoint,
}
use fast_wallet.Broadcast.Calls.{not_text, call-spares, answered-spares, call-apart, marked-apart}

module _ (parse : Message → Option ParsedUrl) where
  -- After a send: an answer without an error, a null result included, starts the window.
  abbrev pub send_spares : CallOutcome → Bool → Bool → Bool
  send_spares (answers none r) before fresh = fresh
  send_spares (answers (some e) r) before fresh = before
  send_spares lost before fresh = false

  -- After a warmup: an answer must have a result to start the window.
  abbrev pub warmup_spares : CallOutcome → Bool → Bool → Bool
  warmup_spares (answers none (some r)) before fresh = fresh
  warmup_spares (answers none none) before fresh = before
  warmup_spares (answers (some e) r) before fresh = before
  warmup_spares lost before fresh = false

  module _ (H : HashTools) where
    send-spares :
        (links : Links) (endpoint : RpcEndpoint) (raw_tx : Message) (outcome : CallOutcome)
        (now later : ℕ)
        → warm_skips parse endpoint.url
            (send_to_endpoint parse H links endpoint raw_tx outcome now).0.warm
            later
          ≡ send_spares outcome
              (warm_skips parse endpoint.url links.warm later)
              (ltb (later - now) (warm_state parse endpoint.url links.warm).window)
    unfolding send_to_endpoint broadcast_next_id sent
    send-spares links endpoint raw_tx late now later = call-spares parse links endpoint late later
    send-spares links endpoint raw_tx dropped now later =
        call-spares parse links endpoint dropped later
    send-spares links endpoint raw_tx (send_fails text) now later =
        call-spares parse links endpoint (send_fails text) later
    send-spares links endpoint raw_tx (body_fails text) now later =
        call-spares parse links endpoint (body_fails text) later
    send-spares links endpoint raw_tx (answers (some e) r) now later =
        call-spares parse links endpoint (answers (some e) r) later
    send-spares links endpoint raw_tx (answers none none) now later =
        answered-spares parse links endpoint none none now later
    send-spares links endpoint raw_tx (answers none (some r)) now later =
        answered-spares parse links endpoint none (some r) now later

    send-apart :
        (links : Links) (endpoint : RpcEndpoint) (raw_tx : Message) (outcome : CallOutcome)
        (now : ℕ) (v : Message)
        → is_text endpoint.url v ≡ false
        → find_warm v (send_to_endpoint parse H links endpoint raw_tx outcome now).0.warm
          ≡ find_warm v links.warm
    unfolding send_to_endpoint broadcast_next_id sent
    send-apart links endpoint raw_tx (answers none none) now v h =
        marked-apart parse links endpoint (answers none none) now v h
    send-apart links endpoint raw_tx (answers none (some r)) now v h =
        marked-apart parse links endpoint (answers none (some r)) now v h
    send-apart links endpoint raw_tx (answers (some e) r) now v h =
        call-apart parse links endpoint (answers (some e) r) v h
    send-apart links endpoint raw_tx late now v h = call-apart parse links endpoint late v h
    send-apart links endpoint raw_tx dropped now v h = call-apart parse links endpoint dropped v h
    send-apart links endpoint raw_tx (send_fails text) now v h =
        call-apart parse links endpoint (send_fails text) v h
    send-apart links endpoint raw_tx (body_fails text) now v h =
        call-apart parse links endpoint (body_fails text) v h

    -- Whatever becomes of a send, and whatever was before: later, a warmup of its endpoint is skipped as long as the endpoint's window
    -- when an answer without an error arrived, even one with a null result; as it would have been without the
    -- send when the answer was an error; and not at all when no whole answer arrived. The state of any other URL
    -- stays.
    pub send_to_endpoint-Spares :
        (links : Links) (endpoint : RpcEndpoint) (raw_tx : Message) (outcome : CallOutcome)
        (now later : ℕ)
        → (warm_skips parse endpoint.url
              (send_to_endpoint parse H links endpoint raw_tx outcome now).0.warm
              later
            ≡ send_spares outcome
                (warm_skips parse endpoint.url links.warm later)
                (ltb (later - now) (warm_state parse endpoint.url links.warm).window))
          × ((v : Message)
              → v ≢ endpoint.url
              → find_warm v (send_to_endpoint parse H links endpoint raw_tx outcome now).0.warm
                ≡ find_warm v links.warm)
    send_to_endpoint-Spares links endpoint raw_tx outcome now later = (
      send-spares links endpoint raw_tx outcome now later,
      λ v other.
          send-apart links endpoint raw_tx outcome now v
            (not_text endpoint.url v (λ e. other (sym e))),
    )

  -- The same of a probe that is made.
  warmed-spares :
      (links : Links) (endpoint : RpcEndpoint) (outcome : CallOutcome) (done later : ℕ)
      → warm_skips parse endpoint.url
          (warmed parse endpoint.url (call parse links endpoint outcome) done).0.warm
          later
        ≡ warmup_spares outcome
            (warm_skips parse endpoint.url links.warm later)
            (ltb (later - done) (warm_state parse endpoint.url links.warm).window)
  unfolding warmed call
  warmed-spares links endpoint (answers none (some r)) done later =
      answered-spares parse links endpoint none (some r) done later
  warmed-spares links endpoint (answers none none) done later =
      call-spares parse links endpoint (answers none none) later
  warmed-spares links endpoint (answers (some e) r) done later =
      call-spares parse links endpoint (answers (some e) r) later
  warmed-spares links endpoint late done later = call-spares parse links endpoint late later
  warmed-spares links endpoint dropped done later = call-spares parse links endpoint dropped later
  warmed-spares links endpoint (send_fails text) done later =
      call-spares parse links endpoint (send_fails text) later
  warmed-spares links endpoint (body_fails text) done later =
      call-spares parse links endpoint (body_fails text) later

  warmup-skipped :
      (links : Links) (endpoint : RpcEndpoint) (outcome : CallOutcome) (now done : ℕ)
      → warm_skips parse endpoint.url links.warm now ≡ true
      → warmup_endpoint parse links endpoint outcome now done ≡ (links, some (ok tt))
  unfolding warmup_endpoint
  warmup-skipped links endpoint outcome now done h = rw h refl

  warmup-probed :
      (links : Links) (endpoint : RpcEndpoint) (outcome : CallOutcome) (now done : ℕ)
      → warm_skips parse endpoint.url links.warm now ≡ false
      → warmup_endpoint parse links endpoint outcome now done
        ≡ warmed parse endpoint.url (call parse (broadcast_next_id links).0 endpoint outcome) done
  unfolding warmup_endpoint
  warmup-probed links endpoint outcome now done h = rw h refl

  -- A warmup that is skipped changes nothing and succeeds. Another one has later warmups of its endpoint skipped as long as the
  -- endpoint's window when an answer with a result and no error arrived; as they would have been without it when
  -- an answer arrived that was an error or empty; and not at all when no whole answer arrived.
  pub warmup_endpoint-Spares :
      (links : Links) (endpoint : RpcEndpoint) (outcome : CallOutcome) (now done later : ℕ)
      → ((warm_skips parse endpoint.url links.warm now ≡ true)
          × (warmup_endpoint parse links endpoint outcome now done ≡ (links, some (ok tt))))
        ⊎ ((warm_skips parse endpoint.url links.warm now ≡ false)
            × (warm_skips parse endpoint.url
                  (warmup_endpoint parse links endpoint outcome now done).0.warm
                  later
                ≡ warmup_spares outcome
                    (warm_skips parse endpoint.url links.warm later)
                    (ltb (later - done) (warm_state parse endpoint.url links.warm).window)))
  unfolding broadcast_next_id
  warmup_endpoint-Spares links endpoint outcome now done later =
      elim (Bool-cases (warm_skips parse endpoint.url links.warm now)) [
        | inl skipped ↦ inl (skipped, warmup-skipped links endpoint outcome now done skipped)
        | inr due ↦ inr (
          due,
          ap
                (λ (l : Links × Option (WalletResult {0} Unit)).
                  warm_skips parse endpoint.url l.0.warm later)
                (warmup-probed links endpoint outcome now done due)
              ∙ warmed-spares (broadcast_next_id links).0 endpoint outcome done later,
        )
      ]
