-- ===== src/Rpc/Hidden.antt =====
-- `redact_urls` leaves no URL in a message.
use fast_wallet.Base.{
  ℕ, zero, suc, ◌≡◌, ◌<◌, Bool, true, false, not, ◌&&◌, ◌||◌, [], ◌∷◌, ◌++◌, all, length, get_elem?,
  any-get_elem?, ◌==◌, none, some, Bool-cases, Option-cases, inl, inr, refl, sym, and_left,
  and_right, arith,
}
use fast_wallet.Errors.{Message}
use fast_wallet.Errors.Text.{
  codes, starts_with, strip_prefix, contains, contains_any, lowercase, lower_byte, is_space,
}
use fast_wallet.Broadcast.Endpoint.{endpoint_host}
use fast_wallet.Broadcast.Host.{is_path_free, endpoint_host-Bare}
use fast_wallet.Rpc.Redact.{
  url_schemes, begins_url, split_at_url, split_at_space, redact_loop, redact_urls,
}
use fast_wallet.Rpc.Cut.{
  is_blank_first, cut_here, cut_later, cut_nothing, cut_joins, split_at_space-blank, round_shrinks,
  blank_kept, last_round, a_round, none-some,
}

-- A needle whose last byte is "/", without white space.
abbrev pub is_sealed : Message → Bool
is_sealed [] = false
is_sealed (c ∷ []) = c == 47
is_sealed (c ∷ d ∷ p) = not (is_space c) && is_sealed (d ∷ p)

-- No "/" before the first white space.
abbrev pub is_quiet : Message → Bool
is_quiet [] = true
is_quiet (c ∷ s) = is_space c || (not (c == 47) && is_quiet s)

quiet_host :
    (host rest : Message)
    → all is_path_free host ≡ true
    → is_blank_first rest ≡ true
    → is_quiet (host ++ rest) ≡ true
quiet_host [] [] f b = refl
quiet_host [] (c ∷ s) f b = rw b refl
quiet_host (c ∷ h) rest f b =
    let more = quiet_host h rest (and_right (is_path_free c) (all is_path_free h) f) b in
    let free = and_left (is_path_free c) (all is_path_free h) f in ground arith

-- A sealed needle is not at the start of a quiet text.
quiet_blocks :
    (p x : Message) → is_sealed p ≡ true → is_quiet x ≡ true → starts_with p (lowercase x) ≡ false
unfolding starts_with strip_prefix lowercase
quiet_blocks [] x h q = cc
quiet_blocks (c ∷ p) [] h q = refl
quiet_blocks (c ∷ []) (d ∷ x) h q = ground arith
quiet_blocks (c ∷ e ∷ p) (d ∷ x) h q = elim (Bool-cases (c == lower_byte d)) [
  | inl same ↦
      rw same
        (quiet_blocks (e ∷ p) x (and_right (not (is_space c)) (is_sealed (e ∷ p)) h) (ground arith))
  | inr other ↦ rw other refl
]

-- Where it starts before a quiet text, it ends there, whatever follows.
quiet_extends :
    (p b x y : Message)
    → is_sealed p ≡ true
    → is_quiet x ≡ true
    → starts_with p (lowercase (b ++ x)) ≡ true
    → starts_with p (lowercase (b ++ y)) ≡ true
unfolding starts_with strip_prefix lowercase
quiet_extends p [] x y h q s = let never = quiet_blocks p x h q in cc
quiet_extends [] (d ∷ b) x y h q s = cc
quiet_extends (c ∷ []) (d ∷ b) x y h q s = elim (Bool-cases (c == lower_byte d)) [
  | inl same ↦ rw same refl
  | inr other ↦ rw other (rw other at s)
]
quiet_extends (c ∷ e ∷ p) (d ∷ b) x y h q s = elim (Bool-cases (c == lower_byte d)) [
  | inl same ↦ rw same (
      quiet_extends (e ∷ p) b x y (and_right (not (is_space c)) (is_sealed (e ∷ p)) h) q
        (rw same at s))
  | inr other ↦ rw other (rw other at s)
]

-- A needle that is nowhere behind the first byte, and not at it.
nowhere :
    (p : Message) (c : ℕ) (s : Message)
    → starts_with p (lowercase (c ∷ s)) ≡ false
    → contains p (lowercase s) ≡ false
    → contains p (lowercase (c ∷ s)) ≡ false
unfolding contains lowercase
nowhere p c s here later = rw (here, later) refl

module _ (p : Message) (sealed : is_sealed p ≡ true)
    (begins : (s : Message) → starts_with p (lowercase s) ≡ true → begins_url s ≡ true) where
  quiet_nowhere : contains p (lowercase []) ≡ false
  unfolding contains lowercase
  quiet_nowhere = quiet_blocks p [] sealed refl

  not_here : (s : Message) → begins_url s ≡ false → starts_with p (lowercase s) ≡ false
  not_here s h = elim (Bool-cases (starts_with p (lowercase s))) [
    | inl e ↦ let wrong = begins s e in cc
    | inr e ↦ e
  ]

  not_before :
      (b tail x : Message)
      → begins_url (b ++ tail) ≡ false
      → is_quiet x ≡ true
      → starts_with p (lowercase (b ++ x)) ≡ false
  not_before b tail x h q = elim (Bool-cases (starts_with p (lowercase (b ++ x)))) [
    | inl e ↦ let wrong = begins (b ++ tail) (quiet_extends p b x tail sealed q e) in cc
    | inr e ↦ e
  ]

  nowhere_before :
      (rest before tail x : Message)
      → split_at_url rest ≡ some (before, tail)
      → is_quiet x ≡ true
      → contains p (lowercase x) ≡ false
      → contains p (lowercase (before ++ x)) ≡ false
  nowhere_before [] before tail x h q n = absurd (cut_nothing before tail h)
  nowhere_before (c ∷ s) before tail x h q n = elim (Bool-cases (begins_url (c ∷ s))) [
    | inl e ↦ rw (cut_here c s before tail h e).0 n
    | inr e ↦
        let (b, same, later) = cut_later c s before tail h e in
        let more = nowhere_before s b tail x later q n in
        let whole : begins_url ((c ∷ b) ++ tail) ≡ false = rw (cut_joins s b tail later).0 at e in
        rw same (nowhere p c (b ++ x) (not_before (c ∷ b) tail x whole q) more)
  ]

  nowhere_in_host :
      (host x : Message)
      → all is_path_free host ≡ true
      → is_blank_first x ≡ true
      → contains p (lowercase x) ≡ false
      → contains p (lowercase (host ++ x)) ≡ false
  nowhere_in_host [] x f b n = n
  nowhere_in_host (c ∷ h) x f b n =
      nowhere p c (h ++ x) (quiet_blocks p (c ∷ (h ++ x)) sealed (quiet_host (c ∷ h) x f b))
        (nowhere_in_host h x (and_right (is_path_free c) (all is_path_free h) f) b n)

  nowhere_uncut : (s : Message) → split_at_url s ≡ none → contains p (lowercase s) ≡ false
  unfolding split_at_url
  nowhere_uncut [] h = quiet_nowhere
  nowhere_uncut (c ∷ s) h = elim (Bool-cases (begins_url (c ∷ s))) [
    | inl e ↦ absurd (none-some ([], c ∷ s) (sym (rw e at h)))
    | inr e ↦ nowhere p c s (not_here (c ∷ s) e) (
        nowhere_uncut s (elim (Option-cases (split_at_url s)) [
          | inl none_found ↦ none_found
          | inr ((b, t), found) ↦ absurd (none-some (c ∷ b, t) (sym (rw (e, found) at h)))
        ]))
  ]

  -- With enough fuel the loop pushes a text that holds the needle nowhere and keeps white space at its start.
  loop_clean :
      (fuel : ℕ) (rest : Message)
      → length rest < fuel
      → (out : Message) × (redact_loop fuel rest ≡ some out)
        × (contains p (lowercase out) ≡ false)
        × (is_blank_first rest ≡ true → is_blank_first out ≡ true)
  loop_clean zero rest h = absurd (omega (arith, h))
  loop_clean (suc fuel) rest h = elim (Option-cases (split_at_url rest)) [
    | inl e ↦ (rest, last_round fuel rest e, nowhere_uncut rest e, λ b. b)
    | inr ((before, tail), e) ↦
        let shrinks = round_shrinks rest before tail e in
        let url = (split_at_space tail).0 in
        let (pushed, more, clean, blank) =
          loop_clean fuel (split_at_space tail).1 (omega (arith, h, shrinks)) in
        let free = (endpoint_host-Bare url).0 in
        let behind = blank (split_at_space-blank tail) in
        let hidden = nowhere_in_host (endpoint_host url) pushed free behind clean in
        let quiet = quiet_host (endpoint_host url) pushed free behind in
        (
          _,
          a_round fuel rest before tail pushed e more,
          nowhere_before rest before tail (endpoint_host url ++ pushed) e quiet hidden,
          blank_kept rest before tail (endpoint_host url ++ pushed) e,
        )
  ]

  redacted : (message : Message) → contains p (lowercase (redact_urls message)) ≡ false
  unfolding redact_urls
  redacted message =
      let (out, same, clean, _) = loop_clean (suc (length message)) message (omega arith) in
      rw same clean

scheme_begins :
    (i : ℕ) (scheme s : Message)
    → get_elem? url_schemes i ≡ some scheme
    → starts_with scheme (lowercase s) ≡ true
    → begins_url s ≡ true
unfolding begins_url
scheme_begins i scheme s e h =
    any-get_elem? (λ x. starts_with x (lowercase s)) url_schemes i scheme e h

-- A message that `redact_urls` has been over holds "http://", "https://", "ws://" and "wss://" nowhere, in
-- any case of letters.
pub redact_urls_hides :
    (message : Message) → contains_any url_schemes (lowercase (redact_urls message)) ≡ false
unfolding contains_any
redact_urls_hides message =
    rw
      (
        redacted (codes "http://") refl (λ s h. scheme_begins 0 _ s refl h) message,
        redacted (codes "https://") refl (λ s h. scheme_begins 1 _ s refl h) message,
        redacted (codes "ws://") refl (λ s h. scheme_begins 2 _ s refl h) message,
        redacted (codes "wss://") refl (λ s h. scheme_begins 3 _ s refl h) message,
      )
      refl
