-- ===== src/Errors/Needles.antt =====
-- Searching a text for a needle: what appending, lowercase and joining lines do to it.
use fast_wallet.Base.{
  ℕ, ◌≡◌, refl, sym, ap, Bool, true, false, ◌||◌, List, [], ◌∷◌, ◌++◌, ◌⊎◌, inl, inr, ◌==◌,
  if◌then◌else◌, any, some, Bool-cases, Option-cases, ==_iff, arith,
}
use mathlib.Core.Bool.{true≢false}
use fast_wallet.Errors.{Message}
use fast_wallet.Errors.Text.{
  is_found, strip_prefix, lower_byte, starts_with, contains, after_last, lowercase,
}
use fast_wallet.Errors.Classify.{join_lines}

pub or_left : (a b : Bool) → a ≡ true → (a || b) ≡ true
or_left true b h = refl
or_left false b h = cc

pub or_right : (a b : Bool) → b ≡ true → (a || b) ≡ true
or_right true b h = refl
or_right false b h = h

pub or_cases : (a b : Bool) → (a || b) ≡ true → (a ≡ true) ⊎ (b ≡ true)
or_cases true b h = inl refl
or_cases false b h = inr h

-- A text that begins with a needle, found by `strip_prefix`.
pub contains-starts_with :
    (needle s : Message) → starts_with needle s ≡ true → contains needle s ≡ true
unfolding contains
contains-starts_with needle [] h = h
contains-starts_with needle (c ∷ s) h = or_left (starts_with needle (c ∷ s)) (contains needle s) h

-- A needle in the end of a text is in the text.
pub contains-prepend :
    (needle p s : Message) → contains needle s ≡ true → contains needle (p ++ s) ≡ true
unfolding contains
contains-prepend needle [] s h = h
contains-prepend needle (c ∷ p) s h =
    or_right (starts_with needle (c ∷ (p ++ s))) (contains needle (p ++ s))
      (contains-prepend needle p s h)

starts_with-shorter :
    (needle more s : Message) → starts_with (needle ++ more) s ≡ true → starts_with needle s ≡ true
unfolding starts_with strip_prefix
starts_with-shorter [] more s h = refl
starts_with-shorter (p ∷ ps) more [] h = h
starts_with-shorter (p ∷ ps) more (c ∷ s) h = elim (Bool-cases (p == c)) [
  | inl e ↦ rw e (starts_with-shorter ps more s (rw e at h))
  | inr e ↦ rw e (rw e at h)
]

-- The beginning of a needle is where the needle is.
pub contains-shorter :
    (needle more s : Message) → contains (needle ++ more) s ≡ true → contains needle s ≡ true
unfolding contains
contains-shorter needle more [] h = starts_with-shorter needle more [] h
contains-shorter needle more (c ∷ s) h =
    elim (or_cases (starts_with (needle ++ more) (c ∷ s)) (contains (needle ++ more) s) h) [
      | inl e ↦ or_left _ (contains needle s) (starts_with-shorter needle more (c ∷ s) e)
      | inr e ↦ or_right (starts_with needle (c ∷ s)) _ (contains-shorter needle more s e)
    ]

==-refl : (n : ℕ) → (n == n) ≡ true
==-refl n = ground arith

starts_with-lowercase :
    (needle s : Message)
    → starts_with needle s ≡ true
    → starts_with (lowercase needle) (lowercase s) ≡ true
unfolding starts_with strip_prefix lowercase
starts_with-lowercase [] s h = refl
starts_with-lowercase (p ∷ ps) [] h = h
starts_with-lowercase (p ∷ ps) (c ∷ s) h = elim (Bool-cases (p == c)) [
  | inl e ↦
      let same : p ≡ c = (==_iff p c).0 e in
      rw (ap lower_byte same, ==-refl (lower_byte c)) (starts_with-lowercase ps s (rw e at h))
  | inr e ↦ let wrong : false ≡ true = rw e at h in absurd (true≢false (sym wrong))
]

-- Lowercase keeps a needle, in lowercase.
pub contains-lowercase :
    (needle s : Message)
    → contains needle s ≡ true
    → contains (lowercase needle) (lowercase s) ≡ true
unfolding contains lowercase
contains-lowercase needle [] h = starts_with-lowercase needle [] h
contains-lowercase needle (c ∷ s) h =
    elim (or_cases (starts_with needle (c ∷ s)) (contains needle s) h) [
      | inl e ↦
          or_left _ (contains (lowercase needle) (lowercase s))
            (starts_with-lowercase needle (c ∷ s) e)
      | inr e ↦
          or_right (starts_with (lowercase needle) (lowercase (c ∷ s))) _
            (contains-lowercase needle s e)
    ]

-- What `rsplit_once` splits at is in the text.
pub contains-after_last :
    (needle s rest : Message) → after_last needle s ≡ some rest → contains needle s ≡ true
unfolding contains after_last starts_with
contains-after_last needle [] rest h = rw h refl
contains-after_last needle (c ∷ s) rest h = elim (Option-cases (after_last needle s)) [
  | inl e ↦ or_left _ (contains needle s) (ap is_found (rw e at h))
  | inr (later, e) ↦ or_right (starts_with needle (c ∷ s)) _ (contains-after_last needle s later e)
]

pub lowercase-append : (s t : Message) → lowercase (s ++ t) ≡ lowercase s ++ lowercase t
unfolding lowercase
lowercase-append [] t = refl
lowercase-append (c ∷ s) t = ap (◌∷◌ (lower_byte c)) (lowercase-append s t)

-- No line feed in a text.
abbrev pub is_line : Message → Bool
is_line [] = true
is_line (c ∷ s) = if c == 10 then false else is_line s

line_rest : (c : ℕ) (s : Message) → is_line (c ∷ s) ≡ true → is_line s ≡ true
line_rest c s h = ground arith

starts_with-line :
    (needle s t : Message)
    → is_line needle ≡ true
    → starts_with needle (s ++ 10 ∷ t) ≡ true
    → starts_with needle s ≡ true
unfolding starts_with strip_prefix
starts_with-line [] s t line h = refl
starts_with-line (p ∷ ps) [] t line h = elim (Bool-cases (p == 10)) [
  | inl e ↦ let wrong : false ≡ true = rw e at line in absurd (true≢false (sym wrong))
  | inr e ↦ rw e at h
]
starts_with-line (p ∷ ps) (c ∷ s) t line h =
    let rest : is_line ps ≡ true = line_rest p ps line in
    elim (Bool-cases (p == c)) [
      | inl e ↦ rw e (starts_with-line ps s t rest (rw e at h))
      | inr e ↦ rw e (rw e at h)
    ]

-- A needle of one line in two texts of which a line feed parts the first is in one of the two.
contains-two_lines :
    (needle s t : Message)
    → is_line needle ≡ true
    → contains needle (s ++ 10 ∷ t) ≡ true
    → (contains needle s ≡ true) ⊎ (contains needle t ≡ true)
unfolding contains
contains-two_lines needle [] t line h =
    elim (or_cases (starts_with needle (10 ∷ t)) (contains needle t) h) [
      | inl e ↦ inl (starts_with-line needle [] t line e)
      | inr e ↦ inr e
    ]
contains-two_lines needle (c ∷ s) t line h =
    elim (or_cases (starts_with needle (c ∷ (s ++ 10 ∷ t))) (contains needle (s ++ 10 ∷ t)) h) [
      | inl e ↦ inl (or_left _ (contains needle s) (starts_with-line needle (c ∷ s) t line e))
      | inr e ↦ elim (contains-two_lines needle s t line e) [
        | inl k ↦ inl (or_right (starts_with needle (c ∷ s)) _ k)
        | inr k ↦ inr k
      ]
    ]

-- A needle of one line that is in joined lines, in lowercase, is in one of them in lowercase.
pub contains-join_lines :
    (needle : Message) (ts : List Message)
    → is_line needle ≡ true
    → contains needle [] ≡ false
    → contains needle (lowercase (join_lines ts)) ≡ true
    → any (λ t. contains needle (lowercase t)) ts ≡ true
unfolding lowercase
contains-join_lines needle [] line full h = cc
contains-join_lines needle (s ∷ []) line full h = or_left _ false h
contains-join_lines needle (s ∷ t ∷ rest) line full h =
    let apart = rw (lowercase-append s (10 ∷ join_lines (t ∷ rest))) at h in
    elim (contains-two_lines needle (lowercase s) (lowercase (join_lines (t ∷ rest))) line apart) [
      | inl e ↦ or_left _ (any (λ u. contains needle (lowercase u)) (t ∷ rest)) e
      | inr e ↦
          or_right (contains needle (lowercase s)) _
            (contains-join_lines needle (t ∷ rest) line full e)
    ]
