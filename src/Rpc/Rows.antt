-- ===== src/Rpc/Rows.antt =====
-- What the rows of a broadcast's observer tell.
use fast_wallet.Base.{
  ℕ, ◌≡◌, refl, ap, ◌∙◌, Bool, true, false, not, ◌||◌, List, [], ◌∷◌, ◌++◌, map, inl, inr,
  Option-cases, Option, some, is_some,
}
use fast_wallet.Errors.{
  Message, EndpointVerdict, BroadcastFailure, rpc_error, network_error, timeout, send_timeout,
  WalletResult, ok, err,
}
use fast_wallet.Transaction.{Bytes}
use fast_wallet.Rpc.Send.{HashTools, SendResult}
use fast_wallet.Rpc.Fanout.{success_result, collect_broadcast}
use fast_wallet.Rpc.Verdicts.{is_ok, WalletResult-cases}
use fast_wallet.Rpc.Detail.{ErrorDetail}
use fast_wallet.Rpc.Observe.{
  completion_before_return, detached_completion, first_success, Label, client_success,
  EndpointObservation, label, cause_of, start, finish, first_success_row, announced, observed,
  Completion,
}

-- The endpoints that are announced as the first success.
abbrev pub announcements : List EndpointObservation → List ℕ
announcements [] = []
announcements (row ∷ rows) = elim row.phase [
  | first_success ↦ row.endpoint_id ∷ announcements rows
  | other ↦ announcements rows
]

-- The rows of completed sends.
abbrev pub completions : List EndpointObservation → List EndpointObservation
completions [] = []
completions (row ∷ rows) = elim row.phase [
  | completion_before_return ↦ row ∷ completions rows
  | detached_completion ↦ row ∷ completions rows
  | other ↦ completions rows
]

abbrev pub reported : WalletResult SendResult → List ℕ
reported (ok sent) = sent.first_success_endpoint_index ∷ []
reported (err e) = []

-- Of the flags, those behind the first that is set.
abbrev pub behind : Bool → List Bool → List Bool
behind set [] = []
behind set (b ∷ bs) = set ∷ behind (set || b) bs

abbrev pub took : Completion → Bool
took c = is_ok c.reply.result

abbrev pub is_detached : EndpointObservation → Bool
is_detached row = elim row.phase [ detached_completion ↦ true | other ↦ false ]

abbrev is_client_success : Label → Bool
is_client_success client_success = true
is_client_success other = false

abbrev pub is_success : EndpointObservation → Bool
is_success row = is_client_success row.result

-- The first of the list is marked, the others are not.
abbrev pub first_marked : Bool → List Completion → List (Option Bool)
first_marked first [] = []
first_marked first (c ∷ cs) = some (not first) ∷ first_marked true cs

module _ (tx_hash : Bytes) where
  quiet-observed :
      (first : Bool) (cs : List Completion) → announcements (observed tx_hash first true cs) ≡ []
  unfolding observed finish announced
  quiet-observed first [] = refl
  quiet-observed first (c ∷ cs) = quiet-observed true cs

  module _ (json : BroadcastFailure → Message) (H : HashTools) (fanout_ms : ℕ) where
    announcements-collect :
        (first : Bool) (cs : List Completion) (failures : List EndpointVerdict) (slowest : ℕ)
        → announcements (observed tx_hash first false cs)
          ≡ reported (collect_broadcast json H fanout_ms (map (λ c. c.reply) cs) failures slowest)
    unfolding observed finish announced first_success_row collect_broadcast success_result
    announcements-collect first [] failures slowest = refl
    announcements-collect first (c ∷ cs) failures slowest =
        elim (WalletResult-cases c.reply.result) [
          | inl ((hash, reused), e) ↦
              rw e (ap (λ l. c.reply.endpoint_index ∷ l) (quiet-observed true cs))
          | inr (why, e) ↦ rw e (announcements-collect true cs _ _)
        ]

    -- With at least one endpoint, and whatever each answers, in whatever order: the observer is told of a first success exactly when the
    -- broadcast succeeds, once, and it is of the endpoint that the result reports.
    pub observed-Announces :
        (c : Completion) (cs : List Completion)
        → announcements (observed tx_hash false false (c ∷ cs))
          ≡ reported (collect_broadcast json H fanout_ms (map (λ x. x.reply) (c ∷ cs)) [] 0)
    observed-Announces c cs = announcements-collect false (c ∷ cs) [] 0

  completions-announced :
      (detached : Bool) (c : Completion) (rows : List EndpointObservation)
      → completions (announced tx_hash detached c ++ rows) ≡ completions rows
  unfolding announced first_success_row
  completions-announced true c rows = refl
  completions-announced false c rows = elim (WalletResult-cases c.reply.result) [
    | inl ((hash, reused), e) ↦ rw e refl
    | inr (why, e) ↦ rw e refl
  ]

  abbrev own_row : Bool → Bool → Completion → EndpointObservation
  own_row first detached c =
      (finish (start tx_hash c.reply.endpoint_index c.started_utc_ms) c.reply.result c.detail first
        detached c.completed_utc_ms c.elapsed_us).0

  -- The rows that the sends finish with.
  abbrev finished : Bool → Bool → List Completion → List EndpointObservation
  finished first detached [] = []
  finished first detached (c ∷ cs) =
      own_row first detached c ∷ finished true (detached || took c) cs

  completions-observed :
      (first detached : Bool) (cs : List Completion)
      → completions (observed tx_hash first detached cs) ≡ finished first detached cs
  unfolding observed finish
  completions-observed first detached [] = refl
  completions-observed first true (c ∷ cs) =
      ap (λ l. own_row first true c ∷ l)
        (completions-announced true c (observed tx_hash true true cs)
          ∙ completions-observed true true cs)
  completions-observed first false (c ∷ cs) =
      ap (λ l. own_row first false c ∷ l)
        (completions-announced false c (observed tx_hash true (took c) cs)
          ∙ completions-observed true (took c) cs)

  is_client_success-label :
      (r : WalletResult (Bytes × Bool)) → is_client_success (label r) ≡ is_ok r
  unfolding label
  is_client_success-label (ok sent) = refl
  is_client_success-label (err timeout) = refl
  is_client_success-label (err (send_timeout n)) = refl
  is_client_success-label (err (network_error t)) = refl
  is_client_success-label (err (rpc_error t)) = refl
  is_client_success-label (err other) = refl

  is_some-cause_of :
      (r : WalletResult (Bytes × Bool)) (d : ErrorDetail) → is_some (cause_of r d) ≡ not (is_ok r)
  unfolding cause_of
  is_some-cause_of (ok sent) d = refl
  is_some-cause_of (err x) d = elim (Option-cases d.cause) [
    | inl missing ↦ rw missing refl
    | inr (k, known) ↦ rw known refl
  ]

  is_detached-own_row :
      (first detached : Bool) (c : Completion) → is_detached (own_row first detached c) ≡ detached
  unfolding finish
  is_detached-own_row first true c = refl
  is_detached-own_row first false c = refl

  finished-marks :
      (first detached : Bool) (cs : List Completion)
      → (map (λ row. row.endpoint_id) (finished first detached cs)
          ≡ map (λ c. c.reply.endpoint_index) cs)
        × (map (λ row. row.is_first_result) (finished first detached cs) ≡ first_marked first cs)
        × (map is_detached (finished first detached cs) ≡ behind detached (map took cs))
        × (map is_success (finished first detached cs) ≡ map took cs)
        × (map (λ row. is_some row.cause) (finished first detached cs) ≡ map (λ c. not (took c)) cs)
  unfolding finish start
  finished-marks first detached [] = (refl, refl, refl, refl, refl)
  finished-marks first detached (c ∷ cs) =
      let (ids, firsts, late, good, causes) = finished-marks true (detached || took c) cs in
      (
        ap (λ l. c.reply.endpoint_index ∷ l) ids,
        ap (λ l. some (not first) ∷ l) firsts,
        rw (is_detached-own_row first detached c, late) refl,
        rw (is_client_success-label c.reply.result, good) refl,
        rw (is_some-cause_of c.reply.result c.detail, causes) refl,
      )

  -- Whatever the endpoints answer, in whatever order they complete: the observer gets one row for each completed send, in
  -- that order; the first, and no other, is marked as the first result; a row is marked as detached exactly when
  -- an earlier send was taken; it is labelled a success exactly when its own was taken, and names a cause exactly
  -- when it was not.
  pub observed-marks :
      (cs : List Completion)
      → (map (λ row. row.endpoint_id) (completions (observed tx_hash false false cs))
          ≡ map (λ c. c.reply.endpoint_index) cs)
        × (map (λ row. row.is_first_result) (completions (observed tx_hash false false cs))
            ≡ first_marked false cs)
        × (map is_detached (completions (observed tx_hash false false cs))
            ≡ behind false (map took cs))
        × (map is_success (completions (observed tx_hash false false cs)) ≡ map took cs)
        × (map (λ row. is_some row.cause) (completions (observed tx_hash false false cs))
            ≡ map (λ c. not (took c)) cs)
  observed-marks cs = rw (completions-observed false false cs) (finished-marks false false cs)
