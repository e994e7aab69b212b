-- ===== src/Rpc/Tests/Rows.antt =====
-- The rows of three sends, of which the second to complete is taken, and their theorems.
use fast_wallet.Base.{ℕ, ◌≡◌, refl, Bool, true, false, List, [], ◌∷◌, map, none, some, is_some, inr}
use fast_wallet.Errors.{Message, BroadcastFailure, rpc_error, send_timeout, WalletResult, ok, err}
use fast_wallet.Errors.Text.{codes}
use fast_wallet.Rpc.Client.{negsuc}
use fast_wallet.Rpc.Detail.{rpc_refusal, http_status, captured, no_detail, decode_response}
use fast_wallet.Rpc.Send.{HashTools}
use fast_wallet.Rpc.Fanout.{collect_broadcast}
use fast_wallet.Rpc.Observe.{refusal, client_success, timeout_uncertain, Completion, observed}
use fast_wallet.Rpc.Rows.{
  announcements, completions, reported, is_detached, is_success, observed-Announces, observed-marks,
}

abbrev json : BroadcastFailure → Message
json failure = []

abbrev tools : HashTools
tools = record { decode = λ s. inr s; keccak256 = λ b. b; debug = λ b. b }

abbrev completion : ℕ → WalletResult (Message × Bool) → Completion
completion i result = record {
  reply = record {
    endpoint_index = i;
    url = codes "https://a.test";
    result = result;
    elapsed_ms = 9;
  };
  detail = no_detail;
  started_utc_ms = some 1;
  completed_utc_ms = some 10;
  elapsed_us = 9000;
  fanout_us = 9100;
}

abbrev refused : Completion
refused = completion 2 (err (rpc_error (codes "no")))

abbrev others : List Completion
others = completion 0 (ok (7 ∷ [], true)) ∷ completion 1 (err (send_timeout 6000)) ∷ []

labels_run :
    map (λ r. r.result) (completions (observed (7 ∷ []) false false (refused ∷ others)))
    ≡ refusal ∷ client_success ∷ timeout_uncertain ∷ []
unfolding observed
labels_run = refl

observed-Announces_example :
    announcements (observed (7 ∷ []) false false (refused ∷ others))
    ≡ reported (collect_broadcast json tools 20 (map (λ c. c.reply) (refused ∷ others)) [] 0)
observed-Announces_example = observed-Announces (7 ∷ []) json tools 20 refused others

announced_run : announcements (observed (7 ∷ []) false false (refused ∷ others)) ≡ 0 ∷ []
unfolding observed
announced_run = refl

observed-marks_example :
    (map (λ row. row.endpoint_id) (completions (observed (7 ∷ []) false false (refused ∷ others)))
      ≡ 2 ∷ 0 ∷ 1 ∷ [])
    × (map
          (λ row. row.is_first_result)
          (completions (observed (7 ∷ []) false false (refused ∷ others)))
        ≡ some true ∷ some false ∷ some false ∷ [])
    × (map is_detached (completions (observed (7 ∷ []) false false (refused ∷ others)))
        ≡ false ∷ false ∷ true ∷ [])
    × (map is_success (completions (observed (7 ∷ []) false false (refused ∷ others)))
        ≡ false ∷ true ∷ false ∷ [])
    × (map
          (λ row. is_some row.cause)
          (completions (observed (7 ∷ []) false false (refused ∷ others)))
        ≡ true ∷ false ∷ true ∷ [])
observed-marks_example = observed-marks (7 ∷ []) (refused ∷ others)

-- A status outside 200 to 299 is the cause, whatever the body.
status_run :
    (decode_response {T = Message}
      (codes "https://a.test/key")
      503
      (captured none none)
      no_detail).0
    ≡ record { http_status = some 503; rpc_code = none; cause = some http_status }
unfolding decode_response
status_run = refl

envelope_run :
    (decode_response {T = Message}
      (codes "https://a.test/key")
      200
      (captured none (some (some (negsuc 31_999))))
      no_detail).0
    ≡ record { http_status = some 200; rpc_code = some (negsuc 31_999); cause = some rpc_refusal }
unfolding decode_response
envelope_run = refl
