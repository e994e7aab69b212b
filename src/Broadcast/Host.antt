-- ===== src/Broadcast/Host.antt =====
-- What the host that is reported and logged can hold of an endpoint's URL.
use mathlib.Core.Path.{subst}
use fast_wallet.Base.{
  ◌⊎◌, ℕ, ◌≡◌, refl, ◌∙◌, Bool, true, false, not, [], ◌∷◌, any, all, ◌==◌, none, some, Bool-cases,
  Option-cases, inl, inr, and_right, arith,
}
use fast_wallet.Errors.{Message}
use fast_wallet.Errors.Text.{codes, strip_prefix, after_last}
use fast_wallet.Broadcast.Endpoint.{after_scheme, authority, endpoint_host}

abbrev pub path_marks : Message
path_marks = codes "/?#"

abbrev pub is_path_free : ℕ → Bool
is_path_free c = not (any (◌==◌ c) path_marks)

abbrev pub is_not_at : ℕ → Bool
is_not_at c = not (c == 64)

-- No mark that begins a path, a query or a fragment, and no end of a user's credentials.
abbrev pub Bare : Message → Type 0
Bare host = (all is_path_free host ≡ true) × (all is_not_at host ≡ true)

authority-free : (s : Message) → all is_path_free (authority s) ≡ true
unfolding authority
authority-free [] = refl
authority-free (c ∷ s) = elim (Bool-cases (any (◌==◌ c) path_marks)) [
  | inl e ↦ rw e refl
  | inr e ↦ rw e (rw e (authority-free s))
]

no_at : after_last (codes "@") [] ≡ none
unfolding after_last strip_prefix
no_at = refl

-- Behind the last "@" of a text: in its rest, or all of its rest.
at_step :
    (c : ℕ) (s r : Message)
    → after_last (codes "@") (c ∷ s) ≡ some r
    → (after_last (codes "@") s ≡ some r) ⊎ ((after_last (codes "@") s ≡ none) × (s ≡ r))
unfolding after_last strip_prefix
at_step c s r h = elim (Option-cases (after_last (codes "@") s)) [
  | inl e ↦
      let first = rw e at h in
      elim (Bool-cases (64 == c)) [
        | inl at ↦ let found : some s ≡ some r = rw at at first in inr (e, cc)
        | inr other ↦ let wrong : none ≡ some r = rw other at first in cc
      ]
  | inr (later, e) ↦ inl (e ∙ (rw e at h))
]

all-after_last :
    (p : ℕ → Bool) (s r : Message)
    → after_last (codes "@") s ≡ some r
    → all p s ≡ true
    → all p r ≡ true
all-after_last p [] r h a = let none_found = no_at in cc
all-after_last p (c ∷ s) r h a = elim (at_step c s r h) [
  | inl later ↦ all-after_last p s r later (and_right (p c) (all p s) a)
  | inr (e, same) ↦ subst (λ x. all p x ≡ true) same (and_right (p c) (all p s) a)
]

without_at : (s : Message) → after_last (codes "@") s ≡ none → all is_not_at s ≡ true
unfolding after_last strip_prefix
without_at [] h = refl
without_at (c ∷ s) h = elim (Option-cases (after_last (codes "@") s)) [
  | inl e ↦
      let first = rw e at h in
      elim (Bool-cases (64 == c)) [
        | inl at ↦ let wrong : some s ≡ none = rw at at first in cc
        | inr other ↦ let not_at : (c == 64) ≡ false = ground arith in rw not_at (without_at s e)
      ]
  | inr (later, e) ↦ let wrong : some later ≡ none = rw e at h in cc
]

behind_at : (s r : Message) → after_last (codes "@") s ≡ some r → all is_not_at r ≡ true
behind_at [] r h = let none_found = no_at in cc
behind_at (c ∷ s) r h = elim (at_step c s r h) [
  | inl later ↦ behind_at s r later
  | inr (e, same) ↦ subst (λ x. all is_not_at x ≡ true) same (without_at s e)
]

-- The host that is reported of an endpoint holds nothing of the URL's path, query or fragment, and no
-- credentials: none of their marks is in it.
pub endpoint_host-Bare : (url : Message) → Bare (endpoint_host url)
unfolding endpoint_host
endpoint_host-Bare url =
    let host = authority (after_scheme url) in
    elim (Option-cases (after_last (codes "@") host)) [
      | inl e ↦ rw e (authority-free (after_scheme url), without_at host e)
      | inr (r, e) ↦ rw e (
        all-after_last is_path_free host r e (authority-free (after_scheme url)),
        behind_at host r e,
      )
    ]
