-- ===== src/Broadcast/Strategy.antt =====
-- The strategies of src/broadcast.rs. A reply is an endpoint with the result that `send_to_endpoint` has
-- for it; replies stand in the endpoints' order. The order in which racing sends complete is the network's:
-- `arrival` is a parameter.
use fast_wallet.Base.{ℕ, suc, not, List, [], ◌∷◌, ◌++◌, keep, length, Option, none, some}
use fast_wallet.Errors.{Message, WalletError, rpc_error, WalletResult, ok, err}
use fast_wallet.Errors.Text.{codes}
use fast_wallet.Transaction.{Bytes}
use fast_wallet.Broadcast.Endpoint.{RpcEndpoint, endpoint_host}

pub data BroadcastStrategy : Type 0 where
  race_all broadcast_all_strategy priority_ordered private_first : BroadcastStrategy

pub record BroadcastResult : Type 0 where
  pub tx_hash : Option Bytes
  pub success_count : ℕ
  pub failure_count : ℕ
  pub errors : List (Message × WalletError)
  pub first_success : Option Message

abbrev pub Reply : Type 0
Reply = RpcEndpoint × WalletResult Bytes

-- How a race ends: with a success, or with the errors of all.
pub data RaceEnd : Type 0 where
  won : BroadcastResult → RaceEnd
  lost : List (Message × WalletError) → RaceEnd

-- The loop that every strategy but one has: the first success ends it.
unfoldable pub race : List Reply → List (Message × WalletError) → RaceEnd
race [] errors = lost errors
race ((e, ok hash) ∷ rest) errors = won (record {
  tx_hash = some hash;
  success_count = 1;
  failure_count = length errors;
  errors = errors;
  first_success = some (endpoint_host e.url);
})
race ((e, err why) ∷ rest) errors = race rest (errors ++ (endpoint_host e.url, why) ∷ [])

abbrev pub failed : List (Message × WalletError) → BroadcastResult
failed errors = record {
  tx_hash = none;
  success_count = 0;
  failure_count = length errors;
  errors = errors;
  first_success = none;
}

abbrev pub ended : RaceEnd → BroadcastResult
ended (won result) = result
ended (lost errors) = failed errors

module _ (arrival : List Reply → List Reply) where
  unfoldable pub broadcast_race : List Reply → BroadcastResult
  unfolding race
  broadcast_race [] = record (failed []) {
    errors = (codes "none", rpc_error (codes "No endpoints configured")) ∷ [];
  }
  broadcast_race (r ∷ rs) = ended (race (arrival (r ∷ rs)) [])

  unfoldable pub broadcast_to_subset : List Reply → BroadcastResult
  unfolding race
  broadcast_to_subset [] = failed []
  broadcast_to_subset (r ∷ rs) = ended (race (arrival (r ∷ rs)) [])

-- The loop of `broadcast_all` over the joined results.
unfoldable pub collect : List Reply → BroadcastResult → BroadcastResult
collect [] acc = acc
collect ((e, ok hash) ∷ rest) acc =
    let seen : BroadcastResult = elim acc.tx_hash [
      | none ↦ record acc { tx_hash = some hash; first_success = some (endpoint_host e.url) }
      | some first ↦ acc
    ] in
    collect rest (record seen { success_count = suc seen.success_count })
collect ((e, err why) ∷ rest) acc = collect rest (record acc {
  errors = acc.errors ++ (endpoint_host e.url, why) ∷ [];
  failure_count = length (acc.errors ++ (endpoint_host e.url, why) ∷ []);
})

unfoldable pub broadcast_all : List Reply → BroadcastResult
unfolding collect
broadcast_all replies = collect replies (failed [])

-- One endpoint after the other, in their order; an endpoint after a success is not contacted.
unfoldable pub broadcast_priority : List Reply → BroadcastResult
unfolding race
broadcast_priority replies = ended (race replies [])

-- The errors of a lost race are dropped.
abbrev pub or_fall_back : RaceEnd → BroadcastResult → BroadcastResult
or_fall_back (won result) fallback = result
or_fall_back (lost errors) fallback = fallback

abbrev pub relays : List Reply → List Reply
relays replies = keep (λ (e, result). e.is_private) replies

abbrev pub publics : List Reply → List Reply
publics replies = keep (λ (e, result). not e.is_private) replies

module _ (arrival : List Reply → List Reply) where
  -- The race among the private relays, which an empty list of relays does not start.
  unfoldable pub relay_race : List Reply → RaceEnd
  unfolding race
  relay_race [] = lost []
  relay_race (r ∷ rs) = race (arrival (r ∷ rs)) []

  unfoldable pub broadcast_private_first : List Reply → BroadcastResult
  unfolding relay_race broadcast_to_subset
  broadcast_private_first replies =
      or_fall_back (relay_race (relays replies)) (broadcast_to_subset arrival (publics replies))

  unfoldable pub broadcast : BroadcastStrategy → List Reply → BroadcastResult
  unfolding broadcast_race broadcast_all broadcast_priority broadcast_private_first
  broadcast race_all replies = broadcast_race arrival replies
  broadcast broadcast_all_strategy replies = broadcast_all replies
  broadcast priority_ordered replies = broadcast_priority replies
  broadcast private_first replies = broadcast_private_first replies
