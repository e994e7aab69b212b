-- ===== src/Errors/Digits.antt =====
-- A printed number is read back.
use mathlib.Core.List.{append_assoc}
use fast_wallet.Base.{
  ℕ, zero, suc, ◌+◌, ◌-◌, ◌*◌, ◌/◌, ◌%◌, ◌<◌, ◌≡◌, refl, sym, ◌∙◌, true, [], ◌∷◌, ◌++◌, all, some,
  ltb, Bool-cases, inl, inr, arith, u64_mod,
}
use fast_wallet.Base.Perms.{all-append}
use fast_wallet.Errors.{Message}
use fast_wallet.Errors.Display.{decimal_from, decimal}
use fast_wallet.Errors.Parse.{is_ascii_digit, digits_value, parse_u64, parse_decimal}

-- What so many digits can write.
abbrev room : ℕ → ℕ
room zero = 1
room (suc fuel) = 10 * room fuel

digits_value-last :
    (k : ℕ) (s : Message) (c : ℕ)
    → digits_value k (s ++ (c ∷ [])) ≡ digits_value k s * 10 + (c - 48)
unfolding digits_value
digits_value-last k [] c = refl
digits_value-last k (d ∷ s) c = digits_value-last (k * 10 + (d - 48)) s c

-- The digits that are put before the rest.
abbrev pub Prints : ℕ → Message → Message → Type 0
Prints n rest text =
    (d : ℕ) × (ds : Message) × (text ≡ (d ∷ ds) ++ rest)
    × (all is_ascii_digit (d ∷ ds) ≡ true)
    × (digits_value 0 (d ∷ ds) ≡ n)

one_digit : (n : ℕ) (rest : Message) → n < 10 → Prints n rest ((48 + n % 10) ∷ rest)
unfolding digits_value
one_digit n rest h = (48 + n % 10, [], refl, ground arith, omega arith)

more_digits :
    (n : ℕ) (rest text : Message) → Prints (n / 10) ((48 + n % 10) ∷ rest) text → Prints n rest text
more_digits n rest text (d, ds, same, digits, value) =
    let c = 48 + n % 10 in
    let last : all is_ascii_digit (c ∷ []) ≡ true = ground arith in
    let val = digits_value-last 0 (d ∷ ds) c in
    (
      d,
      ds ++ (c ∷ []),
      same ∙ sym (append_assoc (d ∷ ds) (c ∷ []) rest),
      all-append is_ascii_digit (d ∷ ds) (c ∷ []) digits last,
      omega (arith, val, value),
    )

decimal_from-Prints :
    (fuel n : ℕ) (rest : Message)
    → n < room (suc fuel)
    → Prints n rest (decimal_from (suc fuel) n rest)
decimal_from-Prints zero n rest h =
    let small : ltb n 10 ≡ true = ground arith in rw small (one_digit n rest (omega (arith, h)))
decimal_from-Prints (suc fuel) n rest h = elim (Bool-cases (ltb n 10)) [
  | inl small ↦ rw small (one_digit n rest (ground arith))
  | inr large ↦ rw large (
      more_digits n rest _
        (decimal_from-Prints fuel (n / 10) ((48 + n % 10) ∷ rest) (omega (arith, h))))
]

-- A word is printed by its digits.
pub decimal-Prints : (n : ℕ) → n < u64_mod → Prints n [] (decimal n)
decimal-Prints n h = decimal_from-Prints 19 n [] (omega (arith, h))

pub parse-digits :
    (n d : ℕ) (ds : Message)
    → all is_ascii_digit (d ∷ ds) ≡ true
    → digits_value 0 (d ∷ ds) ≡ n
    → n < u64_mod
    → parse_decimal (d ∷ ds) ≡ some n
unfolding parse_decimal parse_u64
parse-digits n d ds digits value h =
    let fits : ltb n u64_mod ≡ true = ground arith in rw (digits, value, fits) refl
