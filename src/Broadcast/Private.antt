-- ===== src/Broadcast/Private.antt =====
-- The private relays: what a broadcast that begins with them does with the public endpoints.
use mathlib.Core.List.{Permᴰ}
use fast_wallet.Base.{
  ◌+◌, ◌≡◌, refl, ap, ◌∙◌, true, false, List, [], ◌∷◌, ◌++◌, any, length, some, Bool-cases,
  Option-cases, suc, inl, inr, arith, length-append,
}
use fast_wallet.Errors.{Message, WalletError, ok, err}
use fast_wallet.Broadcast.Endpoint.{endpoint_host}
use fast_wallet.Broadcast.Strategy.{
  BroadcastResult, Reply, race, failed, or_fall_back, broadcast_to_subset, collect, broadcast_all,
  relays, publics, relay_race, broadcast_private_first,
}
use fast_wallet.Broadcast.Outcome.{is_accepted, is_accepted_by_any}
use fast_wallet.Base.Perms.{any-Permᴰ}

race-won :
    (rs : List Reply) (es : List (Message × WalletError)) (b c : BroadcastResult)
    → any is_accepted rs ≡ true
    → or_fall_back (race rs es) b ≡ or_fall_back (race rs es) c
unfolding race
race-won [] es b c h = cc
race-won ((e, ok hash) ∷ rs) es b c h = refl
race-won ((e, err why) ∷ rs) es b c h = race-won rs _ b c h

race-lost :
    (rs : List Reply) (es : List (Message × WalletError)) (b : BroadcastResult)
    → any is_accepted rs ≡ false
    → or_fall_back (race rs es) b ≡ b
unfolding race
race-lost [] es b h = refl
race-lost ((e, ok hash) ∷ rs) es b h = cc
race-lost ((e, err why) ∷ rs) es b h = race-lost rs _ b h

relays-relays : (rs : List Reply) → relays (relays rs) ≡ relays rs
relays-relays [] = refl
relays-relays ((e, result) ∷ rs) = elim (Bool-cases e.is_private) [
  | inl private ↦ rw private (ap (◌∷◌ (record e { is_private = true }, result)) (relays-relays rs))
  | inr public ↦ rw public (relays-relays rs)
]

module _ (arrival : List Reply → List Reply)
    (arrives : (rs : List Reply) → Permᴰ (arrival rs) rs) where
  relay_race-won :
      (rs : List Reply) (b c : BroadcastResult)
      → any is_accepted rs ≡ true
      → or_fall_back (relay_race arrival rs) b ≡ or_fall_back (relay_race arrival rs) c
  unfolding relay_race
  relay_race-won [] b c h = cc
  relay_race-won (r ∷ rs) b c h =
      race-won (arrival (r ∷ rs)) [] b c (any-Permᴰ is_accepted _ _ (arrives (r ∷ rs)) ∙ h)

  relay_race-lost :
      (rs : List Reply) (b : BroadcastResult)
      → any is_accepted rs ≡ false
      → or_fall_back (relay_race arrival rs) b ≡ b
  unfolding relay_race
  relay_race-lost [] b h = refl
  relay_race-lost (r ∷ rs) b h =
      race-lost (arrival (r ∷ rs)) [] b (any-Permᴰ is_accepted _ _ (arrives (r ∷ rs)) ∙ h)

  -- When a private relay takes the transaction, the outcome is the one without any public endpoint.
  pub private_first_hides :
      (replies : List Reply)
      → is_accepted_by_any (relays replies) ≡ true
      → broadcast_private_first arrival replies ≡ broadcast_private_first arrival (relays replies)
  unfolding broadcast_private_first
  private_first_hides replies h = rw (relays-relays replies) (relay_race-won (relays replies) _ _ h)

  -- When no private relay takes it, the outcome is the race of the public endpoints alone: it does not
  -- report the relays' errors, nor count them.
  pub private_first_drops_errors :
      (replies : List Reply)
      → is_accepted_by_any (relays replies) ≡ false
      → broadcast_private_first arrival replies ≡ broadcast_to_subset arrival (publics replies)
  unfolding broadcast_private_first
  private_first_drops_errors replies h = relay_race-lost (relays replies) _ h

collect-counts :
    (rs : List Reply) (acc : BroadcastResult)
    → acc.failure_count ≡ length acc.errors
    → ((collect rs acc).success_count + (collect rs acc).failure_count
        ≡ acc.success_count + acc.failure_count + length rs)
      × ((collect rs acc).failure_count ≡ length (collect rs acc).errors)
unfolding collect
collect-counts [] acc even = (omega arith, even)
collect-counts ((e, ok hash) ∷ rs) acc even = elim (Option-cases acc.tx_hash) [
  | inl empty ↦
      let ih =
        collect-counts rs
          (record acc {
            tx_hash = some hash;
            first_success = some (endpoint_host e.url);
            success_count = suc acc.success_count;
          })
          even in
      rw empty (omega (arith, ih.0), ih.1)
  | inr (first, taken) ↦
      let ih =
        collect-counts rs
          (record acc { tx_hash = some first; success_count = suc acc.success_count }) even in
      rw taken (omega (arith, ih.0), ih.1)
]
collect-counts ((e, err why) ∷ rs) acc even =
    let more = acc.errors ++ (endpoint_host e.url, why) ∷ [] in
    let ih = collect-counts rs (record acc { errors = more; failure_count = length more }) refl in
    (omega (arith, ih.0, even, length-append acc.errors ((endpoint_host e.url, why) ∷ [])), ih.1)

-- A broadcast to all counts every endpoint once, as a success or as a failure, and lists an error for
-- each failure.
pub broadcast_all_counts :
    (replies : List Reply)
    → ((broadcast_all replies).success_count + (broadcast_all replies).failure_count
        ≡ length replies)
      × ((broadcast_all replies).failure_count ≡ length (broadcast_all replies).errors)
unfolding broadcast_all
broadcast_all_counts replies =
    let counts = collect-counts replies (failed []) refl in (omega (arith, counts.0), counts.1)
