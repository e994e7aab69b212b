-- ===== src/Rpc/Cut.antt =====
-- Where the loop of `redact_urls` cuts its text, and that it ends.
use fast_wallet.Base.{
  ℕ, zero, suc, ◌≡◌, ◌<◌, ◌≤◌, Bool, true, false, [], ◌∷◌, ◌++◌, length, ◌==◌, Option, none, some,
  Bool-cases, Option-cases, inl, inr, refl, sym, ◌∙◌, arith,
}
use mathlib.Core.Bool.{true≢false}
use fast_wallet.Errors.{Message}
use fast_wallet.Errors.Text.{starts_with, strip_prefix, lowercase, lower_byte, is_space}
use fast_wallet.Broadcast.Endpoint.{endpoint_host}
use fast_wallet.Rpc.Redact.{begins_url, split_at_url, split_at_space, redact_loop}

abbrev pub is_blank_first : Message → Bool
is_blank_first [] = true
is_blank_first (c ∷ s) = is_space c

pub url_head : (c : ℕ) (s : Message) → begins_url (c ∷ s) ≡ true → is_space c ≡ false
unfolding begins_url starts_with strip_prefix lowercase
url_head c s h = elim (Bool-cases (is_space c)) [
  | inl blank ↦
      let no_h : (104 == lower_byte c) ≡ false = ground arith in
      let no_w : (119 == lower_byte c) ≡ false = ground arith in
      let wrong : false ≡ true = rw (no_h, no_w) at h in cc
  | inr solid ↦ solid
]

pub no_url : begins_url [] ≡ false
unfolding begins_url starts_with strip_prefix lowercase
no_url = refl

module _ {ℓ κ} {A : Type ℓ} {B : Type κ} where
  pub some_parts :
      (a c : A) (b d : B) → ◌≡◌ {A = Option (A × B)} (some (a, b)) (some (c, d)) → (c ≡ a) × (d ≡ b)
  some_parts a c b d h = (cc, cc)

  pub none-some : (p : A × B) → ◌≡◌ {A = Option (A × B)} none (some p) → ⊥
  none-some p h = cc

-- The text is cut where the first URL begins.
pub cut_here :
    (c : ℕ) (s before tail : Message)
    → split_at_url (c ∷ s) ≡ some (before, tail)
    → begins_url (c ∷ s) ≡ true
    → (before ≡ []) × (tail ≡ c ∷ s)
unfolding split_at_url
cut_here c s before tail h e = some_parts [] before (c ∷ s) tail (rw e at h)

pub cut_later :
    (c : ℕ) (s before tail : Message)
    → split_at_url (c ∷ s) ≡ some (before, tail)
    → begins_url (c ∷ s) ≡ false
    → (b : Message) × (before ≡ c ∷ b) × (split_at_url s ≡ some (b, tail))
unfolding split_at_url
cut_later c s before tail h e = elim (Option-cases (split_at_url s)) [
  | inl none_found ↦ absurd (none-some (before, tail) (rw (none_found, e) at h))
  | inr ((b, t), found) ↦
      let (same, rest) = some_parts (c ∷ b) before t tail (rw (found, e) at h) in
      (b, same, rw rest found)
]

pub cut_nothing : (before tail : Message) → split_at_url [] ≡ some (before, tail) → ⊥
unfolding split_at_url
cut_nothing before tail h = none-some (before, tail) h

pub cut_joins :
    (s before tail : Message)
    → split_at_url s ≡ some (before, tail)
    → (s ≡ before ++ tail) × (begins_url tail ≡ true)
cut_joins [] before tail h = absurd (cut_nothing before tail h)
cut_joins (c ∷ s) before tail h = elim (Bool-cases (begins_url (c ∷ s))) [
  | inl e ↦ let (empty, all_of) = cut_here c s before tail h e in rw (empty, all_of) (refl, e)
  | inr e ↦
      let (b, same, later) = cut_later c s before tail h e in
      let (joined, begun) = cut_joins s b tail later in (rw (same, joined) refl, begun)
]

pub not_blank : {P : Type 0} (s : Message) → begins_url s ≡ true → is_blank_first s ≡ true → P
not_blank [] h b = let empty = no_url in absurd (true≢false (sym h ∙ empty))
not_blank (c ∷ s) h b = absurd (true≢false (sym b ∙ url_head c s h))

pub split_at_space-shorter : (s : Message) → length (split_at_space s).1 ≤ length s
unfolding split_at_space
split_at_space-shorter [] = omega arith
split_at_space-shorter (c ∷ s) = let more = split_at_space-shorter s in ground arith

pub split_at_space-blank : (s : Message) → is_blank_first (split_at_space s).1 ≡ true
unfolding split_at_space
split_at_space-blank [] = refl
split_at_space-blank (c ∷ s) =
    let more = split_at_space-blank s in
    elim (Bool-cases (is_space c)) [ inl e ↦ rw e e | inr e ↦ rw e more ]

-- A URL is behind at least one byte of the text that it begins.
pub url_consumes : (s : Message) → begins_url s ≡ true → length (split_at_space s).1 < length s
unfolding split_at_space
url_consumes [] h = let empty = no_url in cc
url_consumes (c ∷ s) h =
    let shorter = split_at_space-shorter s in rw (url_head c s h) (omega (arith, shorter))

length-suffix : (b t : Message) → length t ≤ length (b ++ t)
length-suffix [] t = omega arith
length-suffix (c ∷ b) t = omega (arith, length-suffix b t)

pub round_shrinks :
    (s before tail : Message)
    → split_at_url s ≡ some (before, tail)
    → length (split_at_space tail).1 < length s
round_shrinks s before tail h =
    let (joined, begun) = cut_joins s before tail h in
    let consumed = url_consumes tail begun in
    let within = length-suffix before tail in rw joined (omega (arith, consumed, within))

pub last_round :
    (fuel : ℕ) (rest : Message) → split_at_url rest ≡ none → redact_loop (suc fuel) rest ≡ some rest
unfolding redact_loop
last_round fuel rest e = rw (e, redact_loop) refl

pub a_round :
    (fuel : ℕ) (rest before tail pushed : Message)
    → split_at_url rest ≡ some (before, tail)
    → redact_loop fuel (split_at_space tail).1 ≡ some pushed
    → redact_loop (suc fuel) rest
      ≡ some (before ++ (endpoint_host (split_at_space tail).0 ++ pushed))
unfolding redact_loop
a_round fuel rest before tail pushed e more = rw (e, redact_loop) (rw more refl)

pub blank_kept :
    (rest before tail x : Message)
    → split_at_url rest ≡ some (before, tail)
    → is_blank_first rest ≡ true
    → is_blank_first (before ++ x) ≡ true
blank_kept rest [] tail x e b =
    let (joined, begun) = cut_joins rest [] tail e in not_blank tail begun (rw joined at b)
blank_kept rest (c ∷ before) tail x e b = rw (cut_joins rest (c ∷ before) tail e).0 at b

-- With more fuel than the message has bytes, the loop of `redact_urls` ends with a text.
pub redact_loop_ends :
    (fuel : ℕ) (rest : Message)
    → length rest < fuel
    → (out : Message) × (redact_loop fuel rest ≡ some out)
redact_loop_ends zero rest h = absurd (omega (arith, h))
redact_loop_ends (suc fuel) rest h = elim (Option-cases (split_at_url rest)) [
  | inl e ↦ (rest, last_round fuel rest e)
  | inr ((before, tail), e) ↦
      let shrinks = round_shrinks rest before tail e in
      let (pushed, more) =
        redact_loop_ends fuel (split_at_space tail).1 (omega (arith, h, shrinks)) in
      (_, a_round fuel rest before tail pushed e more)
]
