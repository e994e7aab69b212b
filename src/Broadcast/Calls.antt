-- ===== src/Broadcast/Calls.antt =====
-- What `call` of src/broadcast.rs and a mark leave of the warm states.
use fast_wallet.Base.{
  ℕ, ◌-◌, ◌≡◌, ◌≢◌, refl, sym, ap, ◌∙◌, Bool, true, false, not, [], ◌∷◌, Option, some, ltb,
  if◌then◌else◌, Bool-cases, Option-cases, inl, inr,
}
use fast_wallet.Errors.{Message}
use fast_wallet.Broadcast.Endpoint.{RpcEndpoint}
use fast_wallet.Rpc.Warm.{
  ParsedUrl, WarmState, for_url, probe_due, mark_success, mark_lost, loss_guard, disarm, drop_guard,
}
use fast_wallet.Rpc.Client.{RpcError}
use fast_wallet.Rpc.Send.{is_text}
use fast_wallet.Rpc.Distinct.{is_text_refl, same_text}
use fast_wallet.Broadcast.Links.{
  WarmMap, Links, CallOutcome, late, dropped, send_fails, body_fails, answers, find_warm,
  store_warm, or_new, warm_state, warm_skips, call, mark_warm,
}

pub not_text : (u v : Message) → u ≢ v → is_text u v ≡ false
not_text u v h = elim (Bool-cases (is_text u v)) [
  | inl same ↦ absurd (h (same_text u v same))
  | inr other ↦ other
]

apart : (u v w : Message) → is_text w u ≡ false → is_text w v ≡ true → is_text u v ≡ false
apart u v w h k = elim (Bool-cases (is_text u v)) [
  | inl same ↦
      let one = same_text w v k in
      let two = same_text u v same in
      let wrong : true ≡ false = sym (is_text_refl w) ∙ ap (is_text w) (one ∙ sym two) ∙ h in cc
  | inr other ↦ other
]

find_warm-store_warm :
    (v u : Message) (s : WarmState) (m : WarmMap)
    → find_warm v (store_warm u s m) ≡ (if is_text u v then some s else find_warm v m)
unfolding find_warm store_warm
find_warm-store_warm v u s [] = refl
find_warm-store_warm v u s ((w, old) ∷ m) = elim (Bool-cases (is_text w u)) [
  | inl own ↦
      let same = same_text w u own in
      rw own (
        rw same
          (elim (Bool-cases (is_text u v)) [ inl here ↦ rw here refl | inr there ↦ rw there refl ]))
  | inr other ↦ rw other (elim (Bool-cases (is_text w v)) [
    | inl here ↦ rw (here, apart u v w other here) refl
    | inr there ↦ rw there (find_warm-store_warm v u s m)
  ])
]

find_warm-store_warm_self :
    (u : Message) (s : WarmState) (m : WarmMap) → find_warm u (store_warm u s m) ≡ some s
find_warm-store_warm_self u s m = find_warm-store_warm u u s m ∙ rw (is_text_refl u) refl

lost_skips : (s : WarmState) (now : ℕ) → not (probe_due (mark_lost s) now) ≡ false
unfolding probe_due mark_lost
lost_skips s now = refl

marked_skips :
    (s : WarmState) (now later : ℕ)
    → not (probe_due (mark_success s now) later) ≡ ltb (later - now) s.window
unfolding probe_due mark_success
marked_skips s now later = elim (Bool-cases (ltb (later - now) s.window)) [
  | inl fresh ↦ rw fresh refl
  | inr stale ↦ rw stale refl
]

module _ (parse : Message → Option ParsedUrl) where
  -- Whether a warmup of the URL is skipped, behind a change of its state.
  skips-store_warm :
      (url : Message) (s : WarmState) (m : WarmMap) (now : ℕ)
      → warm_skips parse url (store_warm url s m) now ≡ not (probe_due s now)
  unfolding warm_skips probe_due
  skips-store_warm url s m now = rw (warm_skips, find_warm-store_warm_self url s m) refl

  -- A state that is kept.
  skips-kept :
      (url : Message) (m : WarmMap) (now : ℕ)
      → not (probe_due (warm_state parse url m) now) ≡ warm_skips parse url m now
  unfolding warm_skips warm_state probe_due for_url
  skips-kept url m now = elim (Option-cases (find_warm url m)) [
    | inl missing ↦ rw (warm_skips, warm_state, missing) refl
    | inr (s, known) ↦ rw (warm_skips, warm_state, known) refl
  ]

  skips-lost :
      (links : Links) (url : Message) (later : ℕ)
      → warm_skips parse url
          (store_warm url (mark_lost (warm_state parse url links.warm)) links.warm)
          later
        ≡ false
  skips-lost links url later =
      skips-store_warm url (mark_lost (warm_state parse url links.warm)) links.warm later
      ∙ lost_skips (warm_state parse url links.warm) later

  -- After a call: lost unless an answer arrives, else as before.
  abbrev call_spares : CallOutcome → Bool → Bool
  call_spares (answers e r) before = before
  call_spares lost before = false

  pub call-spares :
      (links : Links) (endpoint : RpcEndpoint) (outcome : CallOutcome) (later : ℕ)
      → warm_skips parse endpoint.url (call parse links endpoint outcome).0.warm later
        ≡ call_spares outcome (warm_skips parse endpoint.url links.warm later)
  unfolding call loss_guard disarm drop_guard
  call-spares links endpoint late later = skips-lost links endpoint.url later
  call-spares links endpoint dropped later = skips-lost links endpoint.url later
  call-spares links endpoint (send_fails text) later = skips-lost links endpoint.url later
  call-spares links endpoint (body_fails text) later = skips-lost links endpoint.url later
  call-spares links endpoint (answers e r) later =
      skips-store_warm endpoint.url (warm_state parse endpoint.url links.warm) links.warm later
      ∙ skips-kept endpoint.url links.warm later

  mark_warm-spares :
      (links : Links) (url : Message) (now later : ℕ)
      → warm_skips parse url (mark_warm parse links url now).warm later
        ≡ ltb (later - now) (warm_state parse url links.warm).window
  unfolding mark_warm
  mark_warm-spares links url now later =
      skips-store_warm url (mark_success (warm_state parse url links.warm) now) links.warm later
      ∙ marked_skips (warm_state parse url links.warm) now later

  window-call :
      (links : Links) (endpoint : RpcEndpoint) (e : Option RpcError) (r : Option Message)
      → (warm_state parse endpoint.url (call parse links endpoint (answers e r)).0.warm).window
        ≡ (warm_state parse endpoint.url links.warm).window
  unfolding call disarm drop_guard
  window-call links endpoint e r =
      ap (λ o. (or_new parse endpoint.url o).window)
        (find_warm-store_warm_self endpoint.url _ links.warm)

  pub answered-spares :
      (links : Links) (endpoint : RpcEndpoint) (e : Option RpcError) (r : Option Message)
      (now later : ℕ)
      → warm_skips parse endpoint.url
          (mark_warm parse (call parse links endpoint (answers e r)).0 endpoint.url now).warm
          later
        ≡ ltb (later - now) (warm_state parse endpoint.url links.warm).window
  answered-spares links endpoint e r now later =
      mark_warm-spares (call parse links endpoint (answers e r)).0 endpoint.url now later
      ∙ ap (λ k. ltb (later - now) k) (window-call links endpoint e r)

  -- Another URL's state stays.
  pub call-apart :
      (links : Links) (endpoint : RpcEndpoint) (outcome : CallOutcome) (v : Message)
      → is_text endpoint.url v ≡ false
      → find_warm v (call parse links endpoint outcome).0.warm ≡ find_warm v links.warm
  unfolding call
  call-apart links endpoint late v h = find_warm-store_warm v endpoint.url _ _ ∙ rw h refl
  call-apart links endpoint dropped v h = find_warm-store_warm v endpoint.url _ _ ∙ rw h refl
  call-apart links endpoint (send_fails text) v h =
      find_warm-store_warm v endpoint.url _ _ ∙ rw h refl
  call-apart links endpoint (body_fails text) v h =
      find_warm-store_warm v endpoint.url _ _ ∙ rw h refl
  call-apart links endpoint (answers e r) v h = find_warm-store_warm v endpoint.url _ _ ∙ rw h refl

  pub marked-apart :
      (links : Links) (endpoint : RpcEndpoint) (outcome : CallOutcome) (now : ℕ) (v : Message)
      → is_text endpoint.url v ≡ false
      → find_warm v (mark_warm parse (call parse links endpoint outcome).0 endpoint.url now).warm
        ≡ find_warm v links.warm
  unfolding mark_warm
  marked-apart links endpoint outcome now v h =
      find_warm-store_warm v endpoint.url _ _ ∙ (rw h refl) ∙ call-apart links endpoint outcome v h
