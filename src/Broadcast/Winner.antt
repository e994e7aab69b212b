-- ===== src/Broadcast/Winner.antt =====
-- The hash that a broadcast reports is an endpoint's own answer, under that endpoint's name.
use mathlib.Core.List.{Permᴰ, Memᴰ}
use fast_wallet.Base.Perms.{Memᴰ-Permᴰ}
use fast_wallet.Base.{
  ◌≡◌, refl, Bool, List, [], ◌∷◌, keep, Option, none, some, Bool-cases, Option-cases, inl, inr,
}
use fast_wallet.Errors.{Message, WalletError, ok, err}
use fast_wallet.Transaction.{Bytes}
use fast_wallet.Broadcast.Endpoint.{RpcEndpoint, endpoint_host}
use fast_wallet.Broadcast.Strategy.{
  BroadcastStrategy, race_all, broadcast_all_strategy, priority_ordered, private_first,
  BroadcastResult, Reply, race, failed, ended, or_fall_back, broadcast_race, broadcast_to_subset,
  collect, broadcast_all, broadcast_priority, relays, publics, relay_race, broadcast_private_first,
  broadcast,
}

-- A reported hash is the answer of an endpoint among the replies, and the reported host is that
-- endpoint's; without a hash there is no host.
abbrev pub Answers : List Reply → Option Bytes → Option Message → Type 0
Answers replies none none = Unit
Answers replies none (some host) = ⊥
Answers replies (some hash) none = ⊥
Answers replies (some hash) (some host) =
    (e : RpcEndpoint) × Memᴰ (e, ok hash) replies × (host ≡ endpoint_host e.url)

abbrev pub AnswersFor : List Reply → BroadcastResult → Type 0
AnswersFor replies r = Answers replies r.tx_hash r.first_success

-- More replies keep an answer.
Answers-more :
    (xs ys : List Reply) (hash : Option Bytes) (host : Option Message)
    → ((r : Reply) → Memᴰ r xs → Memᴰ r ys)
    → Answers xs hash host
    → Answers ys hash host
Answers-more xs ys none none more a = tt
Answers-more xs ys none (some h) more a = a
Answers-more xs ys (some h) none more a = a
Answers-more xs ys (some h) (some host) more (e, m, same) = (e, more _ m, same)

Memᴰ-rest :
    (x : Reply) (xs ys : List Reply) (r : Reply)
    → (Memᴰ r xs → Memᴰ r ys)
    → Memᴰ r (x ∷ xs)
    → Memᴰ r (x ∷ ys)
Memᴰ-rest x xs ys r more (Memᴰ.head s) = Memᴰ.head s
Memᴰ-rest x xs ys r more (Memᴰ.tail m) = Memᴰ.tail (more m)

Memᴰ-keep : (p : Reply → Bool) (xs : List Reply) (r : Reply) → Memᴰ r (keep p xs) → Memᴰ r xs
Memᴰ-keep p [] r m = m
Memᴰ-keep p (x ∷ xs) r m = elim (Bool-cases (p x)) [
  | inl e ↦ Memᴰ-rest x (keep p xs) xs r (Memᴰ-keep p xs r) (rw e at m)
  | inr e ↦ Memᴰ.tail (Memᴰ-keep p xs r (rw e at m))
]

-- The answer of a race, or of what follows a lost one.
race-Answers :
    (all rs : List Reply) (es : List (Message × WalletError)) (b : BroadcastResult)
    → ((r : Reply) → Memᴰ r rs → Memᴰ r all)
    → AnswersFor all b
    → AnswersFor all (or_fall_back (race rs es) b)
unfolding race
race-Answers all [] es b inside a = a
race-Answers all ((e, ok h) ∷ rs) es b inside a = (e, inside _ (Memᴰ.head refl), refl)
race-Answers all ((e, err w) ∷ rs) es b inside a =
    race-Answers all rs _ b (λ r m. inside r (Memᴰ.tail m)) a

ended-Answers :
    (all rs : List Reply) (es : List (Message × WalletError))
    → ((r : Reply) → Memᴰ r rs → Memᴰ r all)
    → AnswersFor all (ended (race rs es))
unfolding race
ended-Answers all [] es inside = tt
ended-Answers all ((e, ok h) ∷ rs) es inside = (e, inside _ (Memᴰ.head refl), refl)
ended-Answers all ((e, err w) ∷ rs) es inside =
    ended-Answers all rs _ (λ r m. inside r (Memᴰ.tail m))

collect-Answers :
    (all rs : List Reply) (acc : BroadcastResult)
    → ((r : Reply) → Memᴰ r rs → Memᴰ r all)
    → AnswersFor all acc
    → AnswersFor all (collect rs acc)
unfolding collect
collect-Answers all [] acc inside a = a
collect-Answers all ((e, ok h) ∷ rs) acc inside a =
    collect-Answers all rs _ (λ r m. inside r (Memᴰ.tail m))
      (elim (Option-cases acc.tx_hash) [
        | inl empty ↦ rw empty (e, inside _ (Memᴰ.head refl), refl)
        | inr (first, taken) ↦ rw taken a
      ])
collect-Answers all ((e, err w) ∷ rs) acc inside a =
    collect-Answers all rs _ (λ r m. inside r (Memᴰ.tail m)) a

module _ (arrival : List Reply → List Reply)
    (arrives : (rs : List Reply) → Permᴰ (arrival rs) rs) where
  subset-Answers :
      (all rs : List Reply)
      → ((r : Reply) → Memᴰ r rs → Memᴰ r all)
      → AnswersFor all (broadcast_to_subset arrival rs)
  unfolding broadcast_to_subset
  subset-Answers all [] inside = tt
  subset-Answers all (r ∷ rs) inside =
      ended-Answers all (arrival (r ∷ rs)) [] (λ x m. inside x (Memᴰ-Permᴰ x (arrives (r ∷ rs)) m))

  relay-Answers :
      (all rs : List Reply) (b : BroadcastResult)
      → ((r : Reply) → Memᴰ r rs → Memᴰ r all)
      → AnswersFor all b
      → AnswersFor all (or_fall_back (relay_race arrival rs) b)
  unfolding relay_race
  relay-Answers all [] b inside a = a
  relay-Answers all (r ∷ rs) b inside a =
      race-Answers all (arrival (r ∷ rs)) [] b (λ x m. inside x (Memᴰ-Permᴰ x (arrives (r ∷ rs)) m))
        a

  -- Whatever the strategy and the order in which the endpoints answer, a reported hash is the answer of one
  -- of the endpoints, and the host of the first success is that endpoint's; without a hash no host is
  -- reported.
  pub broadcast-Answers :
      (strategy : BroadcastStrategy) (replies : List Reply)
      → AnswersFor replies (broadcast arrival strategy replies)
  unfolding broadcast broadcast_race broadcast_all broadcast_priority broadcast_private_first
  broadcast-Answers race_all [] = tt
  broadcast-Answers race_all (r ∷ rs) =
      ended-Answers (r ∷ rs) (arrival (r ∷ rs)) [] (λ x m. Memᴰ-Permᴰ x (arrives (r ∷ rs)) m)
  broadcast-Answers broadcast_all_strategy rs = collect-Answers rs rs (failed []) (λ r m. m) tt
  broadcast-Answers priority_ordered rs = ended-Answers rs rs [] (λ r m. m)
  broadcast-Answers private_first rs =
      relay-Answers rs (relays rs) _ (λ r m. Memᴰ-keep _ rs r m)
        (subset-Answers rs (publics rs) (λ r m. Memᴰ-keep _ rs r m))
