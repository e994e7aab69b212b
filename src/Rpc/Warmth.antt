-- ===== src/Rpc/Warmth.antt =====
-- Which history of requests spares an endpoint its next probe.
use fast_wallet.Base.{
  ℕ, ◌-◌, ◌<◌, ◌≡◌, ◌↔◌, refl, sym, ap, ◌∙◌, true, false, not, List, [], ◌∷◌, Option, none, some,
  ltb, Option-cases, inl, inr, arith,
}
use mathlib.Core.Path.{subst}
use fast_wallet.Rpc.Receipts.{none-some, some_same}
use fast_wallet.Rpc.Warm.{
  WarmState, probe_due, mark_success, mark_lost, loss_guard, drop_guard, disarm,
}
use fast_wallet.Rpc.Client.{
  RpcClient, RpcError, Exchange, send_fails, body_fails, dropped, answers, answer_result, marked,
  request, next_id, mark_request_started,
}

spared :
    (state : WarmState) (now : ℕ)
    → probe_due state now ≡ false
    → (at : ℕ) × (state.last_success ≡ some at) × (now - at < state.window)
unfolding probe_due
spared state now h = elim (Option-cases state.last_success) [
  | inl e ↦ let wrong : true ≡ false = rw e at h in cc
  | inr (at, e) ↦
      let recent : not (ltb (now - at) state.window) ≡ false = rw e at h in (at, e, ground arith)
]

spares :
    (state : WarmState) (now at : ℕ)
    → state.last_success ≡ some at
    → now - at < state.window
    → probe_due state now ≡ false
unfolding probe_due
spares state now at e recent =
    let fresh : ltb (now - at) state.window ≡ true = ground arith in rw (e, fresh) refl

-- A request with the instant at which its answer was there.
abbrev pub History : Type 0 → Type 0
History T = List (Exchange T × ℕ)

module _ {T : Type 0} where
  -- The client after the requests, of which the first of the list is the last that was made.
  abbrev pub after : RpcClient → History T → RpcClient
  after client [] = client
  after client ((exchange, at) ∷ past) = (request (after client past) exchange at).0

  -- The last request that lost its connection or was answered cleanly was answered cleanly, at the instant.
  pub data CleanAt (at : ℕ) : History T → Type 0 where
    clean : (result : T) (past : History T) → CleanAt at ((answers none (some result), at) ∷ past)
    refused :
        (e : RpcError) (result : Option T) (now : ℕ) (past : History T)
        → CleanAt at past
        → CleanAt at ((answers (some e) result, now) ∷ past)
    empty :
        (now : ℕ) (past : History T)
        → CleanAt at past
        → CleanAt at ((answers none none, now) ∷ past)

  clean_now :
      (at t : ℕ) (r : T) (past : History T)
      → CleanAt at ((answers none (some r), t) ∷ past)
      → t ≡ at
  clean_now at _ r past (CleanAt.clean _ _) = refl

  before_empty :
      (at t : ℕ) (past : History T) → CleanAt at ((answers none none, t) ∷ past) → CleanAt at past
  before_empty at t past (CleanAt.empty _ _ c) = c

  before_refused :
      (at t : ℕ) (e : RpcError) (r : Option T) (past : History T)
      → CleanAt at ((answers (some e) r, t) ∷ past)
      → CleanAt at past
  before_refused at t e r past (CleanAt.refused _ _ _ _ c) = c

  last_clean :
      (client : RpcClient) (past : History T) (at : ℕ)
      → client.warm.last_success ≡ none
      → ((after client past).warm.last_success ≡ some at) ↔ CleanAt at past
  unfolding request answer_result marked mark_success mark_lost next_id mark_request_started
      loss_guard drop_guard disarm
  last_clean client [] at cold = (λ h. absurd (none-some (sym cold ∙ h)), λ c. elim c [ ])
  last_clean client ((send_fails text, t) ∷ past) at cold =
      (λ h. absurd (none-some h), λ c. elim c [ ])
  last_clean client ((body_fails text, t) ∷ past) at cold =
      (λ h. absurd (none-some h), λ c. elim c [ ])
  last_clean client ((dropped, t) ∷ past) at cold = (λ h. absurd (none-some h), λ c. elim c [ ])
  last_clean client ((answers none none, t) ∷ past) at cold =
      let (to, from) = last_clean client past at cold in
      (λ h. CleanAt.empty t past (to h), λ c. from (before_empty at t past c))
  last_clean client ((answers none (some r), t) ∷ past) at cold = (
    λ h.
        subst (λ x. CleanAt at ((answers none (some r), x) ∷ past)) (sym (some_same h))
          (CleanAt.clean r past),
    λ c. ap some (clean_now at t r past c),
  )
  last_clean client ((answers (some e) r, t) ∷ past) at cold =
      let (to, from) = last_clean client past at cold in
      (λ h. CleanAt.refused e r t past (to h), λ c. from (before_refused at t e r past c))

  window-after :
      (client : RpcClient) (past : History T) → (after client past).warm.window ≡ client.warm.window
  unfolding request answer_result marked mark_success mark_lost next_id mark_request_started
      loss_guard drop_guard disarm
  window-after client [] = refl
  window-after client ((send_fails text, t) ∷ past) = window-after client past
  window-after client ((body_fails text, t) ∷ past) = window-after client past
  window-after client ((dropped, t) ∷ past) = window-after client past
  window-after client ((answers none none, t) ∷ past) = window-after client past
  window-after client ((answers none (some r), t) ∷ past) = window-after client past
  window-after client ((answers (some e) r, t) ∷ past) = window-after client past

  -- For a client that has not been answered yet, and after any requests: no probe is due exactly when a request was answered cleanly
  -- less than the window ago and no request since then, if any, lost its connection or was answered cleanly.
  pub probe_spared_iff :
      (client : RpcClient) (past : History T) (now : ℕ)
      → client.warm.last_success ≡ none
      → (probe_due (after client past).warm now ≡ false)
        ↔ ((at : ℕ) × CleanAt at past × (now - at < client.warm.window))
  probe_spared_iff client past now cold =
      let same = window-after client past in
      (
        λ h.
            let (at, was, recent) = spared (after client past).warm now h in
            (at, (last_clean client past at cold).0 was, rw same at recent),
        λ (at, c, recent).
            spares (after client past).warm now at ((last_clean client past at cold).1 c)
              (rw same recent),
      )
