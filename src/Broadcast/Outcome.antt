-- ===== src/Broadcast/Outcome.antt =====
-- What a broadcast reports, for every strategy and every order of arrival.
use mathlib.Core.List.{Permᴰ}
use fast_wallet.Base.Perms.{or_swap, any-Permᴰ}
use fast_wallet.Base.{
  ◌≡◌, refl, sym, ap, ◌∙◌, Bool, true, false, ◌||◌, List, [], ◌∷◌, any, is_some, Bool-cases,
  Option-cases, inl, inr,
}
use fast_wallet.Errors.{Message, WalletError, ok, err}
use fast_wallet.Broadcast.Strategy.{
  BroadcastStrategy, race_all, broadcast_all_strategy, priority_ordered, private_first,
  BroadcastResult, Reply, race, failed, ended, or_fall_back, broadcast_race, broadcast_to_subset,
  collect, broadcast_all, broadcast_priority, relays, publics, relay_race, broadcast_private_first,
  broadcast,
}

-- The endpoint took the transaction.
abbrev pub is_accepted : Reply → Bool
is_accepted (e, ok hash) = true
is_accepted (e, err why) = false

abbrev pub is_accepted_by_any : List Reply → Bool
is_accepted_by_any replies = any is_accepted replies

or_false : (a : Bool) → (a || false) ≡ a
or_false true = refl
or_false false = refl

or_assoc : (a b c : Bool) → (a || (b || c)) ≡ ((a || b) || c)
or_assoc true b c = refl
or_assoc false b c = refl

race-hash :
    (rs : List Reply) (es : List (Message × WalletError)) (b : BroadcastResult)
    → is_some (or_fall_back (race rs es) b).tx_hash ≡ (any is_accepted rs || is_some b.tx_hash)
unfolding race
race-hash [] es b = refl
race-hash ((e, ok h) ∷ rs) es b = refl
race-hash ((e, err w) ∷ rs) es b = race-hash rs _ b

race-ended :
    (rs : List Reply) (es : List (Message × WalletError))
    → is_some (ended (race rs es)).tx_hash ≡ any is_accepted rs
unfolding race
race-ended [] es = refl
race-ended ((e, ok h) ∷ rs) es = refl
race-ended ((e, err w) ∷ rs) es = race-ended rs _

collect-hash :
    (rs : List Reply) (acc : BroadcastResult)
    → is_some (collect rs acc).tx_hash ≡ (is_some acc.tx_hash || any is_accepted rs)
unfolding collect
collect-hash [] acc = sym (or_false (is_some acc.tx_hash))
collect-hash ((e, ok h) ∷ rs) acc = elim (Option-cases acc.tx_hash) [
  | inl e ↦ rw e (collect-hash rs _)
  | inr (first, e) ↦ rw e (collect-hash rs _)
]
collect-hash ((e, err w) ∷ rs) acc = collect-hash rs _

any-split :
    (rs : List Reply)
    → any is_accepted rs ≡ (any is_accepted (relays rs) || any is_accepted (publics rs))
any-split [] = refl
any-split ((e, result) ∷ rs) = elim (Bool-cases e.is_private) [
  | inl private ↦ rw private (
      ap (λ x. is_accepted (e, result) || x) (any-split rs)
      ∙ or_assoc (is_accepted (e, result)) (any is_accepted (relays rs))
          (any is_accepted (publics rs)))
  | inr public ↦ rw public (
      ap (λ x. is_accepted (e, result) || x) (any-split rs)
      ∙ or_swap (is_accepted (e, result)) (any is_accepted (relays rs))
          (any is_accepted (publics rs)))
]

module _ (arrival : List Reply → List Reply)
    (arrives : (rs : List Reply) → Permᴰ (arrival rs) rs) where
  subset-hash :
      (rs : List Reply) → is_some (broadcast_to_subset arrival rs).tx_hash ≡ any is_accepted rs
  unfolding broadcast_to_subset
  subset-hash [] = refl
  subset-hash (r ∷ rs) =
      race-ended (arrival (r ∷ rs)) [] ∙ any-Permᴰ is_accepted _ _ (arrives (r ∷ rs))

  relay-hash :
      (rs : List Reply) (b : BroadcastResult)
      → is_some (or_fall_back (relay_race arrival rs) b).tx_hash
        ≡ (any is_accepted rs || is_some b.tx_hash)
  unfolding relay_race
  relay-hash [] b = refl
  relay-hash (r ∷ rs) b =
      race-hash (arrival (r ∷ rs)) [] b
      ∙ ap (λ x. x || is_some b.tx_hash) (any-Permᴰ is_accepted _ _ (arrives (r ∷ rs)))

  -- Whatever the strategy and the order in which the endpoints answer, a broadcast reports a hash exactly
  -- when some endpoint took the transaction.
  pub broadcast_succeeds :
      (strategy : BroadcastStrategy) (replies : List Reply)
      → is_some (broadcast arrival strategy replies).tx_hash ≡ is_accepted_by_any replies
  unfolding broadcast broadcast_race broadcast_all broadcast_priority broadcast_private_first
  broadcast_succeeds race_all [] = refl
  broadcast_succeeds race_all (r ∷ rs) =
      race-ended (arrival (r ∷ rs)) [] ∙ any-Permᴰ is_accepted _ _ (arrives (r ∷ rs))
  broadcast_succeeds broadcast_all_strategy rs = collect-hash rs (failed [])
  broadcast_succeeds priority_ordered rs = race-ended rs []
  broadcast_succeeds private_first rs =
      relay-hash (relays rs) (broadcast_to_subset arrival (publics rs))
      ∙ ap (λ x. any is_accepted (relays rs) || x) (subset-hash (publics rs))
      ∙ sym (any-split rs)
