-- ===== src/Wallet/Tests/Sends.antt =====
-- The theorems on preheated contexts, on broadcasts through a batch client and on verification, at the wallet of the
-- tests.
use mathlib.Core.List.{Memᴰ, reverse}
use mathlib.Core.List.Permᴰ
use fast_wallet.Base.{
  ℕ, ◌<◌, ◌≡◌, ◌⊎◌, refl, Bool, true, false, List, [], ◌∷◌, length, Option, none, some, inr, arith,
}
use fast_wallet.Errors.{
  Message, BroadcastFailure, WalletError, nonce_error, rpc_error, timeout, insufficient_funds,
  WalletResult, ok, err,
}
use fast_wallet.Errors.Text.{codes}
use fast_wallet.Errors.Classify.{is_definitive_precheck_rejection}
use fast_wallet.Transaction.{Bytes, nonce, max_fee_per_gas}
use fast_wallet.Transaction.Request.{TransactionRequest, new_request, build}
use fast_wallet.Transaction.Sign.{Transaction, build_and_sign}
use fast_wallet.Tracker.Availability.{available}
use fast_wallet.Rpc.Send.{HashTools}
use fast_wallet.Rpc.Fanout.{EndpointReply}
use fast_wallet.Rpc.Verdicts.{is_ok}
use fast_wallet.Wallet.{FastWallet}
use fast_wallet.Wallet.Send.{sign}
use fast_wallet.Wallet.Broadcast.{granted, batch, broadcast_signed_result, send_signed_detailed}
use fast_wallet.Wallet.Agreed.{RefusedBy, send_detailed_frees}
use fast_wallet.Wallet.Preheat.{PreheatedContext, new_warmup_only}
use fast_wallet.Wallet.Presend.{sign_with_preheat, send_with_preheat}
use fast_wallet.Wallet.Kept.{fresh, left, signs_once, send_with_preheat_frees}
use fast_wallet.Wallet.Freed.{is_released_by}
use fast_wallet.Wallet.Verify.{verify_broadcast}
use fast_wallet.Wallet.Tracked.{Tracks, verify_broadcast-Tracks}
use fast_wallet.Wallet.Prices.{gas_price_of, preheated_fee_wins}
use fast_wallet.Wallet.Tests.{
  json, chain_nonce, tracker, tracker-IsValid, wallet, tx, signing, refusing,
}

abbrev tools : HashTools
tools = record { decode = λ s. inr s; keccak256 = λ b. b; debug = λ b. b }

-- Two endpoints, both without the funds.
abbrev broke : List EndpointReply
broke =
    record {
      endpoint_index = 0;
      url = codes "https://a.test/key";
      result = err insufficient_funds;
      elapsed_ms = 10;
    }
    ∷ record {
      endpoint_index = 1;
      url = codes "https://b.test/key";
      result = err (rpc_error (codes "execution reverted"));
      elapsed_ms = 20;
    }
    ∷ []

broke_run :
    available
      (send_signed_detailed json chain_nonce wallet tx
        (broadcast_signed_result json tools 20 reverse 1 2 granted (batch broke))
        5
        6).0.tracker
      28
    ≡ true
unfolding available send_signed_detailed broadcast_signed_result fast_wallet.NonceSet.contains
    is_definitive_precheck_rejection fast_wallet.Errors.Classify.is_forwarder_transport_error
    fast_wallet.Errors.Text.contains_any fast_wallet.Tracker.release nonce
    fast_wallet.NonceSet.remove
broke_run = refl

send_detailed_frees_example :
    (available tracker 28 ≡ true)
    ⊎ ((28 ≡ nonce tx.typed_tx)
        × (0 < length broke)
        × ((r : EndpointReply) → Memᴰ r broke → RefusedBy json r))
send_detailed_frees_example =
    send_detailed_frees json tools 20 reverse Permᴰ.reverse chain_nonce wallet tx 1 2 granted broke
      5 6 28 tracker-IsValid broke_run

abbrev context : PreheatedContext
context = record {
  nonce = 28;
  gas_price = some 7;
  priority_fee = some 2;
  max_fee = some 16;
  preheated_at = 0;
  used = false;
  reservation = none;
}

-- The context holds 28; the broadcast is rejected for good, and the nonce is available again.
context_run :
    available
      (left (
        send_with_preheat json chain_nonce signing wallet
          (fresh context (some 28))
          new_request
          (err insufficient_funds)
          5
          6))
      28
    ≡ true
unfolding available send_with_preheat fast_wallet.NonceSet.contains
    fast_wallet.Wallet.Preheat.drop_context build_and_sign build new_request
    is_definitive_precheck_rejection fast_wallet.Tracker.release fast_wallet.NonceSet.remove
context_run = refl

send_with_preheat_frees_example :
    (available tracker 28 ≡ true)
    ⊎ (◌≡◌ {A = Option ℕ} (some 28) (some 28)
        × ((is_ok (sign_with_preheat signing wallet (fresh context (some 28)) new_request 5).2
              ≡ false)
            ⊎ (is_released_by json (err insufficient_funds) ≡ true)))
send_with_preheat_frees_example =
    send_with_preheat_frees json chain_nonce signing wallet context (some 28) new_request
      (err insufficient_funds) 5 6 28 (omega arith) tracker-IsValid context_run

signs_once_example :
    sign_with_preheat refusing wallet
      (sign_with_preheat signing wallet context new_request 5).1
      new_request
      6
    ≡ (
      wallet,
      (sign_with_preheat signing wallet context new_request 5).1,
      err (nonce_error (codes "PreheatedContext already used")),
    )
signs_once_example = signs_once signing refusing wallet wallet context new_request new_request 5 6

abbrev priced : TransactionRequest
priced = record new_request { gas_price = some 3 }

priced_run :
    (priced.gas_price ≡ some 3)
    × (priced.max_fee_per_gas ≡ none)
    × (priced.max_priority_fee_per_gas ≡ none)
unfolding new_request
priced_run = (refl, refl, refl)

abbrev signed_one : WalletResult Transaction → Transaction
signed_one (ok t) = t
signed_one (err e) = tx

-- The request without a context, and with one.
abbrev paid : Transaction
paid = signed_one (sign signing wallet priced 5).1

abbrev capped : Transaction
capped = signed_one (sign_with_preheat signing wallet context priced 6).2

paid_run : (sign signing wallet priced 5).1 ≡ ok paid
unfolding sign build_and_sign build new_request
paid_run = refl

capped_run : (sign_with_preheat signing wallet context priced 6).2 ≡ ok capped
unfolding sign_with_preheat build_and_sign build new_request
capped_run = refl

preheated_fee_wins_example :
    (gas_price_of paid.typed_tx ≡ some 3)
    × (gas_price_of capped.typed_tx ≡ none)
    × (max_fee_per_gas capped.typed_tx ≡ some 16)
preheated_fee_wins_example =
    preheated_fee_wins signing wallet wallet context priced paid capped 3 16 5 6 priced_run.0
      priced_run.1 priced_run.2 refl paid_run capped_run

abbrev accepts : Transaction → WalletResult Bytes
accepts t = ok t.hash

-- The first poll fails and the second does not find the transaction, which is sent again.
abbrev polls : List (WalletResult Bool)
polls = err timeout ∷ ok false ∷ []

verify_broadcast-Tracks_example :
    ((verify_broadcast signing wallet tx (5 ∷ []) polls accepts 5 6).0.tracker ≡ tracker)
    × Tracks tx
        (5 ∷ [])
        polls
        accepts
        (verify_broadcast signing wallet tx (5 ∷ []) polls accepts 5 6).1
verify_broadcast-Tracks_example =
    verify_broadcast-Tracks signing wallet tx (5 ∷ []) polls accepts 5 6
