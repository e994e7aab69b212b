-- ===== src/Errors/RoundTrip.antt =====
-- A node's "nonce too low" text is read back: the phrasing of geth.
use mathlib.Core.List.{append-nil, append_assoc}
use fast_wallet.Base.{
  ℕ, ◌<◌, ◌≡◌, refl, sym, ap, ◌∙◌, Bool, true, false, not, [], ◌∷◌, ◌++◌, all, any, some, none,
  ◌==◌, Bool-cases, inl, inr, arith, u64_mod, and_left, and_right,
}
use fast_wallet.Base.Perms.{all-append}
use fast_wallet.Errors.{Message}
use fast_wallet.Errors.Text.{
  codes, strip_prefix, split_once, after_last, trim, trim_start, trim_end,
}
use fast_wallet.Errors.Display.{decimal}
use fast_wallet.Errors.Digits.{decimal-Prints, parse-digits}
use fast_wallet.Errors.Parse.{
  is_ascii_digit, digits_value, nonce_too_low_details, parse_arbitrum_nonce, parse_geth_nonce,
  parse_nonce_too_low,
}

-- The text of geth's error for a state nonce and a transaction's.
abbrev pub geth_details : Message → Message → Message
geth_details state tx = codes "next nonce " ++ (state ++ (codes ", tx nonce " ++ tx))

abbrev is_not_colon : ℕ → Bool
is_not_colon c = not (c == 58)

abbrev has_colon : Message → Bool
has_colon s = any (λ c. c == 58) s

-- A needle with a colon is not at the start of a text without one, nor anywhere in it.
colon_apart :
    (p s : Message) → has_colon p ≡ true → all is_not_colon s ≡ true → strip_prefix p s ≡ none
unfolding strip_prefix
colon_apart [] s h k = cc
colon_apart (c ∷ p) [] h k = refl
colon_apart (c ∷ p) (d ∷ s) h k = elim (Bool-cases (c == d)) [
  | inl e ↦
      let free = and_left (is_not_colon d) (all is_not_colon s) k in
      let later : has_colon p ≡ true = ground arith in
      rw e (colon_apart p s later (and_right (is_not_colon d) (all is_not_colon s) k))
  | inr e ↦ rw e refl
]

after_last-none :
    (p s : Message) → has_colon p ≡ true → all is_not_colon s ≡ true → after_last p s ≡ none
unfolding after_last
after_last-none p [] h k = colon_apart p [] h k
after_last-none p (c ∷ s) h k =
    rw (after_last-none p s h (and_right (is_not_colon c) (all is_not_colon s) k))
      (colon_apart p (c ∷ s) h k)

split_once-none :
    (p s : Message) → has_colon p ≡ true → all is_not_colon s ≡ true → split_once p s ≡ none
unfolding split_once
split_once-none p [] h k = rw (split_once, colon_apart p [] h k) refl
split_once-none p (c ∷ s) h k =
    rw
      (
        split_once,
        colon_apart p (c ∷ s) h k,
        split_once-none p s h (and_right (is_not_colon c) (all is_not_colon s) k),
      )
      refl

-- The last occurrence stays the last behind any text.
after_last-behind :
    (p before s rest : Message)
    → after_last p s ≡ some rest
    → after_last p (before ++ s) ≡ some rest
unfolding after_last
after_last-behind p [] s rest h = h
after_last-behind p (c ∷ before) s rest h = rw (after_last-behind p before s rest h) refl

after_marker :
    (s : Message)
    → all is_not_colon s ≡ true
    → after_last (codes "nonce too low: ") (codes "nonce too low: " ++ s) ≡ some s
unfolding after_last strip_prefix
after_marker s k = rw (after_last-none (codes "nonce too low: ") s refl k) refl

digits-not_colon : (s : Message) → all is_ascii_digit s ≡ true → all is_not_colon s ≡ true
digits-not_colon [] h = refl
digits-not_colon (c ∷ s) h =
    let more = digits-not_colon s (and_right (is_ascii_digit c) (all is_ascii_digit s) h) in
    let own = and_left (is_ascii_digit c) (all is_ascii_digit s) h in ground arith

-- Digits have no white space at their end, nor has a text that ends with them.
trim_end-digits : (s : Message) → all is_ascii_digit s ≡ true → trim_end s ≡ s
unfolding trim_end
trim_end-digits [] h = refl
trim_end-digits (c ∷ []) h = ground arith
trim_end-digits (c ∷ d ∷ s) h =
    rw (trim_end-digits (d ∷ s) (and_right (is_ascii_digit c) (all is_ascii_digit (d ∷ s)) h)) refl

trim_end-behind :
    (before : Message) (d : ℕ) (s : Message)
    → trim_end (d ∷ s) ≡ d ∷ s
    → trim_end (before ++ (d ∷ s)) ≡ before ++ (d ∷ s)
unfolding trim_end
trim_end-behind [] d s h = h
trim_end-behind (c ∷ []) d s h = rw h refl
trim_end-behind (c ∷ b ∷ before) d s h = rw (trim_end-behind (b ∷ before) d s h) refl

not_comma :
    (c : ℕ) (s : Message) → (44 == c) ≡ false → strip_prefix (codes ", tx nonce ") (c ∷ s) ≡ none
unfolding strip_prefix
not_comma c s other = rw other refl

-- Digits up to the comma.
split_digits :
    (s t : Message)
    → all is_ascii_digit s ≡ true
    → split_once (codes ", tx nonce ") (s ++ (codes ", tx nonce " ++ t)) ≡ some (s, t)
unfolding split_once strip_prefix
split_digits [] t h = refl
split_digits (c ∷ s) t h =
    let more = split_digits s t (and_right (is_ascii_digit c) (all is_ascii_digit s) h) in
    let other : (44 == c) ≡ false = ground arith in
    rw (split_once, not_comma c (s ++ (codes ", tx nonce " ++ t)) other, more) refl

-- Two numbers as the digits that write them.
module _ (state d tx e : ℕ) (ds es : Message) (digits : all is_ascii_digit (d ∷ ds) ≡ true)
    (value : digits_value 0 (d ∷ ds) ≡ state) (state_word : state < u64_mod)
    (digits' : all is_ascii_digit (e ∷ es) ≡ true) (value' : digits_value 0 (e ∷ es) ≡ tx)
    (tx_word : tx < u64_mod) where
  details-not_colon : all is_not_colon (geth_details (d ∷ ds) (e ∷ es)) ≡ true
  details-not_colon =
      all-append is_not_colon (codes "next nonce ") ((d ∷ ds) ++ (codes ", tx nonce " ++ (e ∷ es)))
        refl
        (all-append is_not_colon (d ∷ ds) (codes ", tx nonce " ++ (e ∷ es))
          (digits-not_colon (d ∷ ds) digits)
          (all-append is_not_colon (codes ", tx nonce ") (e ∷ es) refl
            (digits-not_colon (e ∷ es) digits')))

  geth_read : parse_geth_nonce (geth_details (d ∷ ds) (e ∷ es)) ≡ some state
  unfolding parse_geth_nonce strip_prefix
  geth_read =
      rw
        (
          split_digits (d ∷ ds) (e ∷ es) digits,
          parse-digits tx e es digits' value' tx_word,
          parse-digits state d ds digits value state_word,
        )
        refl

  arbitrum_none : parse_arbitrum_nonce (geth_details (d ∷ ds) (e ∷ es)) ≡ none
  unfolding parse_arbitrum_nonce
  arbitrum_none =
      rw (split_once-none (codes ", tx: ") (geth_details (d ∷ ds) (e ∷ es)) refl details-not_colon)
        refl

  spread :
      geth_details (d ∷ ds) (e ∷ es)
      ≡ (codes "next nonce " ++ ((d ∷ ds) ++ codes ", tx nonce ")) ++ (e ∷ es)
  spread =
      ap (λ x. codes "next nonce " ++ x)
        (sym (append_assoc (d ∷ ds) (codes ", tx nonce ") (e ∷ es)))
      ∙ sym (append_assoc (codes "next nonce ") ((d ∷ ds) ++ codes ", tx nonce ") (e ∷ es))

  untrimmed : trim (geth_details (d ∷ ds) (e ∷ es)) ≡ geth_details (d ∷ ds) (e ∷ es)
  unfolding trim trim_start
  untrimmed =
      let last = trim_end-digits (e ∷ es) digits' in
      let front = codes "next nonce " ++ ((d ∷ ds) ++ codes ", tx nonce ") in
      ap trim_end spread ∙ trim_end-behind front e es last ∙ sym spread

  marked_read :
      (before : Message)
      → parse_nonce_too_low (before ++ (codes "nonce too low: " ++ geth_details (d ∷ ds) (e ∷ es)))
        ≡ some state
  unfolding parse_nonce_too_low nonce_too_low_details
  marked_read before =
      rw
        (
          after_last-behind (codes "nonce too low: ") before _ _
              (after_marker (geth_details (d ∷ ds) (e ∷ es)) details-not_colon),
          untrimmed,
          arbitrum_none,
          geth_read,
        )
        refl

-- For two words and any text before it: from geth's message for a state nonce and a transaction's, which prints them as decimals, the parser
-- reads the state nonce back.
pub parse-geth :
    (before : Message) (state tx : ℕ)
    → state < u64_mod
    → tx < u64_mod
    → parse_nonce_too_low
        (before ++ (codes "nonce too low: " ++ geth_details (decimal state) (decimal tx)))
      ≡ some state
parse-geth before state tx state_word tx_word =
    let (d, ds, same, digits, value) = decimal-Prints state state_word in
    let (e, es, same', digits', value') = decimal-Prints tx tx_word in
    ap
      (λ x.
        parse_nonce_too_low (before ++ (codes "nonce too low: " ++ geth_details x (decimal tx))))
      (same ∙ append-nil (d ∷ ds))
    ∙ ap (λ x. parse_nonce_too_low (before ++ (codes "nonce too low: " ++ geth_details (d ∷ ds) x)))
        (same' ∙ append-nil (e ∷ es))
    ∙ marked_read state d tx e ds es digits value state_word digits' value' tx_word before
