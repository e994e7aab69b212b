-- ===== src/Rpc/Verdicts.antt =====
-- What the fan-out reports, in every order of arrival.
use mathlib.Core.List.{Permᴰ, Memᴰ, append-nil, append_assoc}
use mathlib.Core.List.Permᴰ
use mathlib.Core.Path.{subst}
use fast_wallet.Base.{
  ◌⊎◌, ℕ, suc, ◌≤◌, ◌≡◌, refl, sym, ap, ◌∙◌, Bool, true, false, List, [], ◌∷◌, ◌++◌, map, any,
  length, length-append, inl, inr, max, arith,
}
use fast_wallet.Base.Perms.{any-Permᴰ, Memᴰ-Permᴰ}
use fast_wallet.Errors.{
  Message, EndpointVerdict, BroadcastFailure, WalletError, broadcast_failed, rpc_error,
  WalletResult, ok, err,
}
use fast_wallet.Transaction.{Bytes}
use fast_wallet.Broadcast.Endpoint.{endpoint_host}
use fast_wallet.Rpc.Send.{HashTools, SendResult}
use fast_wallet.Rpc.Fanout.{
  EndpointReply, new_verdict, success_result, collect_broadcast, broadcast_transaction_observed,
  failed_part,
}

abbrev pub is_ok {ℓ} : {A : Type ℓ} → WalletResult A → Bool
is_ok (ok a) = true
is_ok (err e) = false

-- The endpoint took the transaction.
abbrev pub is_taken : EndpointReply → Bool
is_taken r = is_ok r.result

-- The verdict on a reply, if it is an error.
abbrev pub verdict_of : (BroadcastFailure → Message) → EndpointReply → List EndpointVerdict
verdict_of json r = elim r.result [
  | ok sent ↦ []
  | err error ↦ new_verdict json r.url error r.elapsed_ms ∷ []
]

-- The verdicts on all replies, in their order.
abbrev pub verdicts : (BroadcastFailure → Message) → List EndpointReply → List EndpointVerdict
verdicts json [] = []
verdicts json (r ∷ rs) = verdict_of json r ++ verdicts json rs

pub WalletResult-cases {ℓ} :
    {A : Type ℓ} (r : WalletResult A) → ((a : A) × (r ≡ ok a)) ⊎ ((e : WalletError) × (r ≡ err e))
WalletResult-cases (ok a) = inl (a, refl)
WalletResult-cases (err e) = inr (e, refl)

module _ {ℓ} {A : Type ℓ} where
  pub ok_same : {a b : A} → ok a ≡ ok b → a ≡ b
  ok_same h = cc

  pub ok_err : {a : A} {e : WalletError} → ok a ≡ err e → ⊥
  ok_err h = cc

  pub failed_same :
      {f g : BroadcastFailure}
      → ◌≡◌ {A = WalletResult A} (err (broadcast_failed f)) (err (broadcast_failed g))
      → f ≡ g
  failed_same h = cc

  pub other_error :
      {text : Message} {f : BroadcastFailure}
      → ◌≡◌ {A = WalletResult A} (err (rpc_error text)) (err (broadcast_failed f))
      → ⊥
  other_error h = cc

  pub err_ok : {e : WalletError} {a : A} → err e ≡ ok a → ⊥
  err_ok h = cc

length-map {ℓ κ} :
    {A : Type ℓ} {B : Type κ} (f : A → B) (xs : List A) → length (map f xs) ≡ length xs
length-map f [] = refl
length-map f (x ∷ xs) = omega (arith, length-map f xs)

module _ (json : BroadcastFailure → Message) (H : HashTools) (fanout_ms : ℕ) where
  collect-taken :
      (rs : List EndpointReply) (failures : List EndpointVerdict) (slowest : ℕ)
      → is_ok (collect_broadcast json H fanout_ms rs failures slowest) ≡ any is_taken rs
  unfolding collect_broadcast
  collect-taken [] failures slowest = refl
  collect-taken (r ∷ rs) failures slowest = elim (WalletResult-cases r.result) [
    | inl (sent, e) ↦ rw e refl
    | inr (why, e) ↦ rw e (collect-taken rs _ _)
  ]

  collect-verdicts :
      (rs : List EndpointReply) (failures : List EndpointVerdict) (slowest : ℕ)
      → any is_taken rs ≡ false
      → collect_broadcast json H fanout_ms rs failures slowest
        ≡ err (broadcast_failed (record { endpoints = failures ++ verdicts json rs }))
  unfolding collect_broadcast
  collect-verdicts [] failures slowest h =
      ap (λ vs. err (broadcast_failed (record { endpoints = vs }))) (sym (append-nil failures))
  collect-verdicts (r ∷ rs) failures slowest h = elim (WalletResult-cases r.result) [
    | inl (sent, e) ↦ let wrong : true ≡ false = rw e at h in cc
    | inr (why, e) ↦
        let v = new_verdict json r.url why r.elapsed_ms ∷ [] in
        rw e (
          collect-verdicts rs (failures ++ v) (max slowest r.elapsed_ms) (rw e at h)
          ∙ ap (λ vs. err (broadcast_failed (record { endpoints = vs })))
              (append_assoc failures v (verdicts json rs)))
  ]

  -- What a reported success says: a reply of the list was a success, and the hash, the endpoint and its time are that
  -- reply's; no earlier endpoint was slower than reported; and there is one entry for each endpoint heard of.
  pub record Reports (replies : List EndpointReply) (s : SendResult) : Type 0 where
    pub reply : EndpointReply
    pub answered : Memᴰ reply replies
    pub hash : Bytes
    pub taken : reply.result ≡ ok (hash, s.connection_reused)
    pub own_hash : s.tx_hash ≡ H.debug hash
    pub own_index : s.first_success_endpoint_index ≡ reply.endpoint_index
    pub own_host : s.fastest_endpoint_host ≡ endpoint_host reply.url
    pub own_time : s.fastest_endpoint_ms ≡ reply.elapsed_ms
    pub ordered : s.fastest_endpoint_ms ≤ s.slowest_endpoint_ms
    pub counted : length s.per_endpoint_ms ≡ suc s.failed_endpoints

  le-max : (a b : ℕ) → b ≤ max a b
  le-max a b = ground arith

  -- The success that the loop reports on a reply.
  own-Reports :
      (all : List EndpointReply) (r : EndpointReply) (hash : Bytes) (reused : Bool) (slowest : ℕ)
      (failures : List EndpointVerdict)
      → Memᴰ r all
      → r.result ≡ ok (hash, reused)
      → r.elapsed_ms ≤ slowest
      → Reports all (success_result H r hash reused slowest fanout_ms failures)
  unfolding success_result
  own-Reports all r hash reused slowest failures m e le = record {
    reply = r;
    answered = m;
    hash = hash;
    taken = e;
    own_hash = refl;
    own_index = refl;
    own_host = refl;
    own_time = refl;
    ordered = le;
    counted =
        length-append (map failed_part failures) _ ∙ omega (arith, length-map failed_part failures);
  }

  collect-Reports :
      (all rs : List EndpointReply) (failures : List EndpointVerdict) (slowest : ℕ) (s : SendResult)
      → ((r : EndpointReply) → Memᴰ r rs → Memᴰ r all)
      → collect_broadcast json H fanout_ms rs failures slowest ≡ ok s
      → Reports all s
  unfolding collect_broadcast
  collect-Reports all [] failures slowest s inside h = absurd (err_ok h)
  collect-Reports all (r ∷ rs) failures slowest s inside h = elim (WalletResult-cases r.result) [
    | inl ((hash, reused), e) ↦ subst (Reports all) (ok_same (rw e at h)) (
        own-Reports all r hash reused (max slowest r.elapsed_ms) failures
          (inside r (Memᴰ.head refl)) e (le-max slowest r.elapsed_ms))
    | inr (why, e) ↦ collect-Reports all rs _ _ s (λ r m. inside r (Memᴰ.tail m)) (rw e at h)
  ]

module _ (json : BroadcastFailure → Message) where
  verdicts-Permᴰ :
      (xs ys : List EndpointReply) → Permᴰ xs ys → Permᴰ (verdicts json xs) (verdicts json ys)
  verdicts-Permᴰ _ _ Permᴰ.nil = Permᴰ.nil
  verdicts-Permᴰ _ _ (Permᴰ.cons {a = a} {l₁ = xs} {l₂ = ys} e q) =
      subst
        (λ b. Permᴰ (verdict_of json a ++ verdicts json xs) (verdict_of json b ++ verdicts json ys))
        e (Permᴰ.append_left (verdict_of json a) (verdicts-Permᴰ xs ys q))
  verdicts-Permᴰ _ _ (Permᴰ.swap {a = a} {b = b} {l = l} e f) =
      let u = verdict_of json a in
      let v = verdict_of json b in
      let rest = verdicts json l in
      let crossed : Permᴰ (u ++ (v ++ rest)) (v ++ (u ++ rest)) =
        rw (sym (append_assoc u v rest), sym (append_assoc v u rest))
          (Permᴰ.append_right rest (Permᴰ.append_comm u v)) in
      rw (sym e, sym f) crossed
  verdicts-Permᴰ _ _ (Permᴰ.trans {l₁ = xs} {l₂ = ys} {l₃ = zs} p q) =
      Permᴰ.trans (verdicts-Permᴰ xs ys p) (verdicts-Permᴰ ys zs q)

module _ (json : BroadcastFailure → Message) (H : HashTools) (fanout_ms : ℕ)
    (arrival : List EndpointReply → List EndpointReply)
    (arrives : (rs : List EndpointReply) → Permᴰ (arrival rs) rs) where
  -- In whatever order the endpoints complete, the fan-out succeeds exactly when some endpoint took the transaction.
  pub fan_out_succeeds :
      (replies : List EndpointReply)
      → is_ok (broadcast_transaction_observed json H fanout_ms arrival replies)
        ≡ any is_taken replies
  unfolding broadcast_transaction_observed
  fan_out_succeeds [] = refl
  fan_out_succeeds (r ∷ rs) =
      collect-taken json H fanout_ms (arrival (r ∷ rs)) [] 0
      ∙ any-Permᴰ is_taken _ _ (arrives (r ∷ rs))

  -- When no endpoint took the transaction and there is an endpoint, the error holds one verdict for each endpoint, whatever the order in
  -- which they complete.
  pub fan_out-verdicts :
      (r : EndpointReply) (rs : List EndpointReply)
      → any is_taken (r ∷ rs) ≡ false
      → (failure : BroadcastFailure) × (broadcast_transaction_observed json H fanout_ms arrival
            (r ∷ rs)
          ≡ err (broadcast_failed failure))
        × Permᴰ failure.endpoints (verdicts json (r ∷ rs))
  unfolding broadcast_transaction_observed
  fan_out-verdicts r rs h = (
    record { endpoints = verdicts json (arrival (r ∷ rs)) },
    collect-verdicts json H fanout_ms (arrival (r ∷ rs)) [] 0
        (any-Permᴰ is_taken _ _ (arrives (r ∷ rs)) ∙ h),
    verdicts-Permᴰ json _ _ (arrives (r ∷ rs)),
  )

  -- A reported success is that of one of the endpoints, in whatever order they complete: its hash, its place, its host and its time are
  -- reported, the slowest time is no less than the fastest, and there is an entry for each endpoint that failed and for the winner.
  pub fan_out-Reports :
      (replies : List EndpointReply) (s : SendResult)
      → broadcast_transaction_observed json H fanout_ms arrival replies ≡ ok s
      → Reports json H fanout_ms replies s
  unfolding broadcast_transaction_observed
  fan_out-Reports [] s h = absurd (err_ok h)
  fan_out-Reports (r ∷ rs) s h =
      collect-Reports json H fanout_ms (r ∷ rs) (arrival (r ∷ rs)) [] 0 s
        (λ x m. Memᴰ-Permᴰ x (arrives (r ∷ rs)) m) h
