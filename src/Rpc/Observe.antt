-- ===== src/Rpc/Observe.antt =====
-- The rows that an observer of a broadcast gets: src/rpc/observation.rs, and where src/rpc/batch.rs has them
-- written. Clock readings are arguments; the sink, which may not fail a send, is the list of the rows it is given.
use fast_wallet.Base.{
  ℕ, Bool, true, false, ◌||◌, not, List, [], ◌∷◌, ◌++◌, Option, none, some, if◌then◌else◌,
}
use fast_wallet.Errors.{rpc_error, network_error, timeout, send_timeout, WalletResult, ok, err}
use fast_wallet.Transaction.{Bytes}
use fast_wallet.Rpc.Client.{ℤ}
use fast_wallet.Rpc.Detail.{Cause, decode, ErrorDetail, or_cause}
use fast_wallet.Rpc.Fanout.{EndpointReply}
use fast_wallet.Rpc.Verdicts.{is_ok}

pub data Phase : Type 0 where
  dispatch completion_before_return detached_completion first_success : Phase

-- The fixed texts of results.
pub data Label : Type 0 where
  pending client_success timeout_uncertain transport_uncertain refusal other_error : Label

pub record EndpointObservation : Type 0 where
  pub tx_hash : Bytes
  pub endpoint_id : ℕ
  pub is_first_result : Option Bool
  pub phase : Phase
  pub result : Label
  pub http_status : Option ℕ
  pub rpc_code : Option ℤ
  pub cause : Option Cause
  pub started_utc_ms : Option ℕ
  pub completed_utc_ms : Option ℕ
  pub elapsed_us : Option ℕ
  pub connection_reuse_hint : Option Bool

unfoldable pub start : Bytes → ℕ → Option ℕ → EndpointObservation
start tx_hash endpoint_id utc_ms = record {
  tx_hash = tx_hash;
  endpoint_id = endpoint_id;
  is_first_result = none;
  phase = dispatch;
  result = pending;
  http_status = none;
  rpc_code = none;
  cause = none;
  started_utc_ms = utc_ms;
  completed_utc_ms = none;
  elapsed_us = none;
  connection_reuse_hint = none;
}

unfoldable pub label : WalletResult (Bytes × Bool) → Label
label (ok sent) = client_success
label (err timeout) = timeout_uncertain
label (err (send_timeout elapsed_ms)) = timeout_uncertain
label (err (network_error text)) = transport_uncertain
label (err (rpc_error text)) = refusal
label (err other) = other_error

unfoldable pub cause_of : WalletResult (Bytes × Bool) → ErrorDetail → Option Cause
cause_of (ok sent) d = none
cause_of (err e) d = or_cause d.cause decode

abbrev reuse_of : WalletResult (Bytes × Bool) → Option Bool
reuse_of (ok (hash, reused)) = some reused
reuse_of (err e) = none

-- `finish`; the two flags are shared by the sends of a broadcast, `first_result` being set here.
unfoldable pub finish :
    EndpointObservation
    → WalletResult (Bytes × Bool)
    → ErrorDetail
    → Bool
    → Bool
    → Option ℕ
    → ℕ
    → EndpointObservation × Bool
unfolding label cause_of
finish row result detail first_result detached utc_ms elapsed = (
  record row {
    http_status = detail.http_status;
    rpc_code = detail.rpc_code;
    cause = cause_of result detail;
    is_first_result = some (not first_result);
    phase = if detached then detached_completion else completion_before_return;
    result = label result;
    completed_utc_ms = utc_ms;
    elapsed_us = some elapsed;
    connection_reuse_hint = reuse_of result;
  },
  true,
)

unfoldable pub first_success_row : Bytes → ℕ → Bool → Option ℕ → ℕ → EndpointObservation
first_success_row tx_hash endpoint_id reused utc_ms elapsed = record {
  tx_hash = tx_hash;
  endpoint_id = endpoint_id;
  is_first_result = none;
  phase = first_success;
  result = client_success;
  http_status = none;
  rpc_code = none;
  cause = none;
  started_utc_ms = none;
  completed_utc_ms = utc_ms;
  elapsed_us = some elapsed;
  connection_reuse_hint = some reused;
}

-- One endpoint's send as it is observed: its reply, the detail, and the clock at its start and its end.
pub record Completion : Type 0 where
  pub reply : EndpointReply
  pub detail : ErrorDetail
  pub started_utc_ms : Option ℕ
  pub completed_utc_ms : Option ℕ
  pub elapsed_us : ℕ
  pub fanout_us : ℕ

module _ (tx_hash : Bytes) where
  -- The row of the collector for the success that it sees first.
  unfoldable pub announced : Bool → Completion → List EndpointObservation
  unfolding first_success_row
  announced true c = []
  announced false c = elim c.reply.result [
    | ok (hash, reused) ↦
        first_success_row tx_hash c.reply.endpoint_index reused c.completed_utc_ms c.fanout_us ∷ []
    | err e ↦ []
  ]

  -- The rows behind the dispatches, in the order in which the endpoints complete; the flags are arguments. The
  -- futures that are left at the first success go on in a task of their own.
  unfoldable pub observed : Bool → Bool → List Completion → List EndpointObservation
  unfolding start finish announced
  observed first_result detached [] = []
  observed first_result detached (c ∷ cs) =
      let (row, seen) =
        finish (start tx_hash c.reply.endpoint_index c.started_utc_ms) c.reply.result c.detail
          first_result detached c.completed_utc_ms c.elapsed_us in
      row ∷ (announced detached c ++ observed seen (detached || is_ok c.reply.result) cs)
