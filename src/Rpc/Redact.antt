-- ===== src/Rpc/Redact.antt =====
-- `redact_urls` of src/rpc.rs, which leaves of every URL in a message its host. White space is ASCII's.
use fast_wallet.Base.{
  ℕ, zero, suc, Bool, List, [], ◌∷◌, ◌++◌, Option, none, some, any, length, if◌then◌else◌,
  unwrap_or,
}
use fast_wallet.Errors.{Message}
use fast_wallet.Errors.Text.{codes, starts_with, lowercase, is_space}
use fast_wallet.Broadcast.Endpoint.{endpoint_host}

abbrev pub url_schemes : List Message
url_schemes = codes "http://" ∷ codes "https://" ∷ codes "ws://" ∷ codes "wss://" ∷ []

-- One of the schemes is found at the start of the lower-case text.
unfoldable pub begins_url : Message → Bool
unfolding starts_with lowercase
begins_url s = any (λ scheme. starts_with scheme (lowercase s)) url_schemes

-- The text before and from the least of the places where `find` meets a scheme.
unfoldable pub split_at_url : Message → Option (Message × Message)
unfolding begins_url
split_at_url [] = none
split_at_url (c ∷ s) =
    let later = split_at_url s in
    if begins_url (c ∷ s)
    then some ([], c ∷ s)
    else elim later [ none ↦ none | some (before, tail) ↦ some (c ∷ before, tail) ]

-- The text before and from the first white space.
unfoldable pub split_at_space : Message → Message × Message
split_at_space [] = ([], [])
split_at_space (c ∷ s) =
    let (before, tail) = split_at_space s in if is_space c then ([], c ∷ s) else (c ∷ before, tail)

-- What the rounds of the loop push to `out` for the rest of the message; `none` when the fuel ends.
unfoldable pub redact_loop : ℕ → Message → Option Message
unfolding split_at_url split_at_space endpoint_host
redact_loop zero rest = none
redact_loop (suc fuel) rest = elim (split_at_url rest) [
  | none ↦ some rest
  | some (before, tail) ↦ elim (redact_loop fuel (split_at_space tail).1) [
    | none ↦ none
    | some pushed ↦ some (before ++ (endpoint_host (split_at_space tail).0 ++ pushed))
  ]
]

-- A round consumes at least one byte.
unfoldable pub redact_urls : Message → Message
unfolding redact_loop
redact_urls message = unwrap_or (redact_loop (suc (length message)) message) []
