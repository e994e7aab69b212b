-- ===== src/Rpc/Leaks.antt =====
-- What a failed broadcast can show of the endpoints' URLs.
use fast_wallet.Base.{◌≡◌, refl, Bool, true, not, ◌&&◌, inl, inr, List, [], ◌∷◌, all, ℕ}
use mathlib.Core.Path.{subst}
use fast_wallet.Base.Perms.{all-append}
use fast_wallet.Errors.{
  Message, EndpointVerdict, BroadcastFailure, WalletError, broadcast_failed, err,
}
use fast_wallet.Errors.Text.{contains_any, lowercase}
use fast_wallet.Broadcast.Host.{is_path_free, is_not_at, endpoint_host-Bare}
use fast_wallet.Rpc.Redact.{url_schemes}
use fast_wallet.Rpc.Hidden.{redact_urls_hides}
use fast_wallet.Rpc.Send.{HashTools}
use fast_wallet.Rpc.Fanout.{
  EndpointReply, new_verdict, collect_broadcast, broadcast_transaction_observed,
}
use fast_wallet.Rpc.Verdicts.{WalletResult-cases, ok_err, failed_same, other_error}

-- No URL scheme in the text, and in the host neither a path, a query or a fragment nor credentials.
abbrev pub is_secret_free : EndpointVerdict → Bool
is_secret_free v =
    not (contains_any url_schemes (lowercase v.error))
    && (all is_path_free v.host && all is_not_at v.host)

module _ (json : BroadcastFailure → Message) where
  new_verdict-secret_free :
      (url : Message) (error : WalletError) (elapsed_ms : ℕ)
      → is_secret_free (new_verdict json url error elapsed_ms) ≡ true
  unfolding new_verdict
  new_verdict-secret_free url error elapsed_ms =
      let (free, bare) = endpoint_host-Bare url in rw (redact_urls_hides _, free, bare) refl

module _ (json : BroadcastFailure → Message) (H : HashTools) (fanout_ms : ℕ) where
  collect-secret_free :
      (rs : List EndpointReply) (failures : List EndpointVerdict) (slowest : ℕ)
      (failure : BroadcastFailure)
      → all is_secret_free failures ≡ true
      → collect_broadcast json H fanout_ms rs failures slowest ≡ err (broadcast_failed failure)
      → all is_secret_free failure.endpoints ≡ true
  unfolding collect_broadcast
  collect-secret_free [] failures slowest failure free h =
      subst (λ f. all is_secret_free f.endpoints ≡ true) (failed_same h) free
  collect-secret_free (r ∷ rs) failures slowest failure free h =
      elim (WalletResult-cases r.result) [
        | inl (sent, e) ↦ absurd (ok_err (rw e at h))
        | inr (why, e) ↦
            collect-secret_free rs _ _ failure
              (all-append is_secret_free failures (new_verdict json r.url why r.elapsed_ms ∷ [])
                free (rw (new_verdict-secret_free json r.url why r.elapsed_ms) refl))
              (rw e at h)
      ]

  -- Whatever the endpoints answer and in whatever order, a failed broadcast shows no endpoint's URL: no verdict's text holds a URL scheme in any case of
  -- letters, and no verdict's host holds a mark of a path, a query, a fragment or credentials.
  pub fan_out-secret_free :
      (arrival : List EndpointReply → List EndpointReply) (replies : List EndpointReply)
      (failure : BroadcastFailure)
      → broadcast_transaction_observed json H fanout_ms arrival replies
        ≡ err (broadcast_failed failure)
      → all is_secret_free failure.endpoints ≡ true
  unfolding broadcast_transaction_observed
  fan_out-secret_free arrival [] failure h = absurd (other_error h)
  fan_out-secret_free arrival (r ∷ rs) failure h =
      collect-secret_free (arrival (r ∷ rs)) [] 0 failure refl h
