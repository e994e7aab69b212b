-- ===== src/Errors/Release.antt =====
-- When an error lets the nonce go, and how that agrees with the nonce errors.
use fast_wallet.Base.{
  ℕ, ◌<◌, ◌≡◌, ◌≢◌, ◌↔◌, inl, inr, refl, sym, Bool, true, false, not, ◌&&◌, List, [], ◌∷◌, ◌++◌,
  map, none, some, any, all, keep, length, get_elem?, Bool-cases, and_left, and_right,
  any-get_elem?, all-get_elem?, get_elem?-all, Option-cases, arith,
}
use fast_wallet.Errors.{
  Message, EndpointFailureClass, transport, rejection, EndpointVerdict, BroadcastFailure,
  WalletError, broadcast_failed, invalid_private_key, invalid_address, signing_error, rpc_error,
  nonce_error, encoding_error, network_error, hex_error, json_error, http_error, invalid_chain_id,
  nonce_too_low, transaction_underpriced, insufficient_funds, gas_limit_exceeded, send_timeout,
  timeout, all_endpoints_rejected_definitively, ambiguous_broadcast_failure, invalid_config,
  no_credentials_dir, credential_error,
}
use fast_wallet.Errors.Text.{codes, contains, contains_any, lowercase}
use fast_wallet.Errors.Display.{to_string}
use fast_wallet.Errors.Classify.{
  is_empty, ambiguous_markers, is_rejection, is_definitive_text, is_definitive_verdict,
  is_definitive_precheck_rejection, SyncBlock, pending, latest, sync_text, nonce_sync_block,
}
use fast_wallet.Errors.Parse.{parse_nonce_too_low, nonce_too_low_details, authoritative_nonce}
use fast_wallet.Errors.Needles.{
  or_cases, contains-prepend, contains-shorter, contains-lowercase, contains-after_last,
  contains-join_lines, is_line,
}

abbrev low : Message
low = codes "nonce too low"

abbrev high : Message
high = codes "nonce too high"

-- The marker that a sync block comes from.
abbrev sync_marker : SyncBlock → Message
sync_marker pending = low
sync_marker latest = high

ambiguous-sync_marker :
    (b : SyncBlock) (text : Message)
    → contains (sync_marker b) text ≡ true
    → contains_any ambiguous_markers text ≡ true
unfolding contains_any
ambiguous-sync_marker pending text h =
    any-get_elem? (λ needle. contains needle text) ambiguous_markers 9 low refl h
ambiguous-sync_marker latest text h =
    any-get_elem? (λ needle. contains needle text) ambiguous_markers 8 high refl h

-- A text with a nonce marker is not definitive.
text_denied :
    (b : SyncBlock) (text : Message)
    → contains (sync_marker b) (lowercase text) ≡ true
    → is_definitive_text text ≡ false
unfolding is_definitive_text
text_denied b text h = rw (ambiguous-sync_marker b (lowercase text) h) refl

and_false : (a : Bool) → (a && false) ≡ false
and_false true = refl
and_false false = refl

-- Nor is a verdict.
verdict_denied :
    (b : SyncBlock) (v : EndpointVerdict)
    → contains (sync_marker b) (lowercase v.error) ≡ true
    → is_definitive_verdict v ≡ false
unfolding is_definitive_verdict lowercase
verdict_denied b v h =
    let inside : contains (sync_marker b) (lowercase (codes "RPC error: " ++ v.error)) ≡ true =
      contains-prepend (sync_marker b) (lowercase (codes "RPC error: ")) (lowercase v.error) h in
    rw (text_denied b (codes "RPC error: " ++ v.error) inside) (and_false (is_rejection v.class))

verdicts_denied :
    (b : SyncBlock) (vs : List EndpointVerdict)
    → any
        (λ t. contains (sync_marker b) (lowercase t))
        (map (λ v. v.error) (keep (λ v. is_rejection v.class) vs))
      ≡ true
    → all is_definitive_verdict vs ≡ false
verdicts_denied b [] h = cc
verdicts_denied b (v ∷ vs) h = elim (Bool-cases (is_rejection v.class)) [
  | inl e ↦ elim (or_cases (contains (sync_marker b) (lowercase v.error)) _ (rw e at h)) [
    | inl here ↦ rw (verdict_denied b v here) refl
    | inr later ↦ rw (verdicts_denied b vs later) (and_false (is_definitive_verdict v))
  ]
  | inr e ↦ rw (verdicts_denied b vs (rw e at h)) (and_false (is_definitive_verdict v))
]

marker-is_line : (b : SyncBlock) → is_line (sync_marker b) ≡ true
marker-is_line pending = refl
marker-is_line latest = refl

marker-full : (b : SyncBlock) → contains (sync_marker b) [] ≡ false
unfolding contains
marker-full pending = refl
marker-full latest = refl

non_empty_length : (vs : List EndpointVerdict) → not (is_empty vs) ≡ true → 0 < length vs
non_empty_length [] h = cc
non_empty_length (v ∷ vs) h = omega arith

length_non_empty : (vs : List EndpointVerdict) → 0 < length vs → not (is_empty vs) ≡ true
length_non_empty [] h = absurd (omega arith)
length_non_empty (v ∷ vs) h = refl

rejection_of : (c : EndpointFailureClass) → is_rejection c ≡ true → c ≡ rejection
rejection_of transport h = cc
rejection_of rejection h = refl

module _ (json : BroadcastFailure → Message) where
  -- A sync block comes from its marker in the text that is read.
  sync-marker :
      (e : WalletError) (b : SyncBlock)
      → nonce_sync_block json e ≡ some b
      → contains (sync_marker b) (sync_text json e) ≡ true
  unfolding nonce_sync_block
  sync-marker e b h = elim (Bool-cases (contains low (sync_text json e))) [
    | inl found ↦ let same : pending ≡ b = cc in rw (sym same) found
    | inr missing ↦ elim (Bool-cases (contains high (sync_text json e))) [
      | inl found ↦ let same : latest ≡ b = cc in rw (sym same) found
      | inr absent ↦ cc
    ]
  ]

  funds-no_sync : nonce_sync_block json insufficient_funds ≡ none
  unfolding nonce_sync_block sync_text to_string contains lowercase
  funds-no_sync = refl

  gas-no_sync : nonce_sync_block json gas_limit_exceeded ≡ none
  unfolding nonce_sync_block sync_text to_string contains lowercase
  gas-no_sync = refl

  -- An error that calls for a nonce sync, pending or latest, never lets its nonce go, unless it is the
  -- aggregate that claims a definitive rejection by every endpoint.
  pub nonce_sync-retained :
      (e : WalletError) (b : SyncBlock)
      → ((s : Message) → e ≢ all_endpoints_rejected_definitively s)
      → nonce_sync_block json e ≡ some b
      → is_definitive_precheck_rejection json e ≡ false
  unfolding is_definitive_precheck_rejection sync_text
  nonce_sync-retained (invalid_private_key s) b other h =
      text_denied b _ (sync-marker (invalid_private_key s) b h)
  nonce_sync-retained (invalid_address s) b other h =
      text_denied b _ (sync-marker (invalid_address s) b h)
  nonce_sync-retained (signing_error s) b other h =
      text_denied b _ (sync-marker (signing_error s) b h)
  nonce_sync-retained (rpc_error s) b other h = text_denied b _ (sync-marker (rpc_error s) b h)
  nonce_sync-retained (nonce_error s) b other h = text_denied b _ (sync-marker (nonce_error s) b h)
  nonce_sync-retained (encoding_error s) b other h =
      text_denied b _ (sync-marker (encoding_error s) b h)
  nonce_sync-retained (hex_error s) b other h = text_denied b _ (sync-marker (hex_error s) b h)
  nonce_sync-retained (json_error s) b other h = text_denied b _ (sync-marker (json_error s) b h)
  nonce_sync-retained (invalid_chain_id id) b other h =
      text_denied b _ (sync-marker (invalid_chain_id id) b h)
  nonce_sync-retained (nonce_too_low expected got) b other h =
      text_denied b _ (sync-marker (nonce_too_low expected got) b h)
  nonce_sync-retained (send_timeout elapsed_ms) b other h =
      text_denied b _ (sync-marker (send_timeout elapsed_ms) b h)
  nonce_sync-retained (invalid_config s) b other h =
      text_denied b _ (sync-marker (invalid_config s) b h)
  nonce_sync-retained no_credentials_dir b other h =
      text_denied b _ (sync-marker no_credentials_dir b h)
  nonce_sync-retained (credential_error s) b other h =
      text_denied b _ (sync-marker (credential_error s) b h)
  nonce_sync-retained (ambiguous_broadcast_failure s) b other h = refl
  nonce_sync-retained timeout b other h = refl
  nonce_sync-retained (network_error s) b other h = refl
  nonce_sync-retained (http_error s) b other h = refl
  nonce_sync-retained transaction_underpriced b other h = refl
  nonce_sync-retained insufficient_funds b other h = let e = funds-no_sync in cc
  nonce_sync-retained gas_limit_exceeded b other h = let e = gas-no_sync in cc
  nonce_sync-retained (all_endpoints_rejected_definitively s) b other h = absurd (other s refl)
  nonce_sync-retained (broadcast_failed f) b other h =
      let rejected = keep (λ v. is_rejection v.class) f.endpoints in
      let one =
        contains-join_lines (sync_marker b) (map (λ v. v.error) rejected) (marker-is_line b)
          (marker-full b) (sync-marker (broadcast_failed f) b h) in
      rw (verdicts_denied b f.endpoints one) (and_false _)

  -- When a node reports the next nonce, the error calls for a pending sync.
  pub authoritative-pending :
      (e : WalletError) (n : ℕ)
      → authoritative_nonce e ≡ some n
      → nonce_sync_block json e ≡ some pending
  unfolding authoritative_nonce parse_nonce_too_low nonce_too_low_details nonce_sync_block sync_text
      lowercase
  authoritative-pending (rpc_error s) n h = elim (Option-cases (nonce_too_low_details s)) [
    | inl e ↦ let wrong : none ≡ some n = rw e at h in cc
    | inr (details, e) ↦
        let found = contains-after_last (codes "nonce too low: ") s details e in
        let marker =
          contains-shorter low (codes ": ") (lowercase s) (contains-lowercase _ s found) in
        rw (contains-prepend low (lowercase (codes "RPC error: ")) (lowercase s) marker) refl
  ]
  authoritative-pending _ n h = cc

  -- A failed broadcast is definitive exactly when it has a verdict and each of its verdicts is a rejection
  -- whose text is definitive for a single endpoint.
  pub definitive_broadcast_iff :
      (f : BroadcastFailure)
      → (is_definitive_precheck_rejection json (broadcast_failed f) ≡ true) ↔ (
          (0 < length f.endpoints)
          × ((i : ℕ) (v : EndpointVerdict)
              → get_elem? f.endpoints i ≡ some v
              → (v.class ≡ rejection)
                × (is_definitive_precheck_rejection json (rpc_error v.error) ≡ true)))
  unfolding is_definitive_precheck_rejection is_definitive_verdict to_string
  definitive_broadcast_iff f = (
    λ h. (
      non_empty_length f.endpoints (and_left _ _ h),
      λ i v e.
          let one = all-get_elem? is_definitive_verdict f.endpoints i v (and_right _ _ h) e in
          (rejection_of v.class (and_left _ _ one), and_right _ _ one),
    ),
    λ (some_endpoint, each).
        let every =
          get_elem?-all is_definitive_verdict f.endpoints
            (λ i v e. let (class, text) = each i v e in rw (class, text) refl) in
        rw (length_non_empty f.endpoints some_endpoint, every) refl,
  )
