-- ===== src/Errors/Text.antt =====
-- Texts as lists of bytes, and `str`'s operations on them. Letters outside ASCII are left as they are.
use fast_wallet.Base.{
  ℕ, ◌+◌, Bool, true, false, ◌&&◌, ◌||◌, List, [], ◌∷◌, leb, ◌==◌, if◌then◌else◌, any, Option, none,
  some,
}
use Prim.Native.Char.{code}
use Prim.Native.String.{String}
use fast_wallet.Errors.{Message}

abbrev pub codes : String → Message
codes String.[] = []
codes (String.◌∷◌ c s) = code c ∷ codes s

-- `strip_prefix`.
unfoldable pub strip_prefix : Message → Message → Option Message
strip_prefix [] s = some s
strip_prefix (p ∷ ps) [] = none
strip_prefix (p ∷ ps) (c ∷ s) = if p == c then strip_prefix ps s else none

abbrev pub is_found : Option Message → Bool
is_found none = false
is_found (some s) = true

unfoldable pub starts_with : Message → Message → Bool
unfolding strip_prefix
starts_with needle s = is_found (strip_prefix needle s)

-- `str::contains`.
unfoldable pub contains : Message → Message → Bool
unfolding starts_with
contains needle [] = starts_with needle []
contains needle (c ∷ s) = starts_with needle (c ∷ s) || contains needle s

-- `needles.iter().any(|needle| message.contains(needle))`.
unfoldable pub contains_any : List Message → Message → Bool
unfolding contains
contains_any needles s = any (λ needle. contains needle s) needles

-- `split_once`: before and behind the first occurrence.
unfoldable pub split_once : Message → Message → Option (Message × Message)
split_once needle [] = elim (strip_prefix needle []) [ some rest ↦ some ([], rest) | none ↦ none ]
split_once needle (c ∷ s) =
    let later = split_once needle s in
    elim (strip_prefix needle (c ∷ s)) [
      | some rest ↦ some ([], rest)
      | none ↦ elim later [ some (before, rest) ↦ some (c ∷ before, rest) | none ↦ none ]
    ]

-- `rsplit_once(needle)`, of which only the part behind the last occurrence is used.
unfoldable pub after_last : Message → Message → Option Message
after_last needle [] = strip_prefix needle []
after_last needle (c ∷ s) = elim (after_last needle s) [
  | some rest ↦ some rest
  | none ↦ strip_prefix needle (c ∷ s)
]

abbrev pub is_space : ℕ → Bool
is_space c = c == 32 || (leb 9 c && leb c 13)

unfoldable pub trim_start : Message → Message
trim_start [] = []
trim_start (c ∷ s) = if is_space c then trim_start s else c ∷ s

unfoldable pub trim_end : Message → Message
trim_end [] = []
trim_end (c ∷ s) = elim (trim_end s) [
  | [] ↦ (if is_space c then [] else c ∷ [])
  | d ∷ r ↦ c ∷ d ∷ r
]

unfoldable pub trim : Message → Message
unfolding trim_start trim_end
trim s = trim_end (trim_start s)

abbrev pub lower_byte : ℕ → ℕ
lower_byte c = if leb b'A' c && leb c b'Z' then c + 32 else c

-- `to_ascii_lowercase`, and `to_lowercase` on ASCII.
unfoldable pub lowercase : Message → Message
lowercase [] = []
lowercase (c ∷ s) = lower_byte c ∷ lowercase s
