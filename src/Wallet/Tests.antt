-- ===== src/Wallet/Tests.antt =====
-- Tests of the wallet's calls, and the theorems at concrete wallets. The encodings, the hash and the curve
-- are constants here: no test reads them.
mod Sends
mod Nonces
mod Builds
mod Stalls
use fast_wallet.Base.{ℕ, ◌≡◌, ◌⊎◌, refl, ap, true, [], ◌∷◌, none, some, arith}
use fast_wallet.Errors.{
  Message, BroadcastFailure, signing_error, insufficient_funds, WalletResult, ok, err,
}
use fast_wallet.Errors.Classify.{SyncBlock, is_definitive_precheck_rejection}
use fast_wallet.Transaction.{legacy, nonce}
use fast_wallet.Transaction.Rlp.{Rlp}
use fast_wallet.Transaction.Request.{new_request, build}
use fast_wallet.Transaction.Sign.{Prehash, signature, refused, Transaction, build_and_sign}
use fast_wallet.Tracker.{NonceTracker, peek}
use fast_wallet.Tracker.Invariant.{IsValid}
use fast_wallet.Tracker.Availability.{available}
use fast_wallet.Ledger.{
  InflightNonceRecord, broadcast_accepted, lowest_unresolved_at_or_above, prune_consumed, snapshot,
}
use fast_wallet.OrderedMap.{find, from_key}
use fast_wallet.Wallet.{FastWallet, Setting}
use fast_wallet.Wallet.Send.{sign, send_signed}
use fast_wallet.Wallet.Replace.{cancelled, not_stalled, Meets, replace_stalled_nonce}
use fast_wallet.Wallet.Freed.{
  is_released_by, send_signed_frees, send_signed_returns, sign_failed_restores,
}
use fast_wallet.Wallet.Justified.{replace_once}

abbrev constant_rlp : Rlp
constant_rlp = record {
  uint = λ n. [];
  uint_length = λ n. 0;
  string = λ b. [];
  string_length = λ b. 0;
  fixed = λ b. [];
  fixed_length = λ b. 0;
  list_header = λ n. [];
  length_of_length = λ n. 0;
}

abbrev setting : Prehash → Setting
setting answer = record {
  crypto = record {
    rlp = constant_rlp;
    keccak256 = λ b. 7 ∷ [];
    sign_prehash_recoverable = λ b. answer;
  };
  address = 1 ∷ [];
  chain_id = 8453;
  default_gas_limit = 21_000;
}

abbrev json : BroadcastFailure → Message
json failure = []

abbrev chain_nonce : SyncBlock → WalletResult ℕ
chain_nonce block = ok 27

-- The nonces 26 and 27 are given back, 28 is out.
abbrev tracker : NonceTracker
tracker = record {
  current = 29;
  pending_count = 1;
  synced_nonce = 26;
  gaps = 26 ∷ 27 ∷ [];
  gap_count = 2;
}

tracker-IsValid : IsValid tracker
tracker-IsValid = record {
  ahead = omega arith;
  word = omega arith;
  ordered = omega arith;
  counted = refl;
}

abbrev head : InflightNonceRecord
head = record {
  nonce = 28;
  tx_hashes = 5 ∷ [];
  status = broadcast_accepted;
  first_seen = 0;
  accepted_broadcasts = 1;
  release_reason = none;
  max_fee_seen = some 100;
  max_priority_seen = some 10;
}

abbrev wallet : FastWallet
wallet = record { tracker = tracker; inflight = (28, head) ∷ []; last_stall_replace = none }

abbrev tx : Transaction
tx = record {
  typed_tx = legacy (record {
    nonce = 28;
    gas_price = 1;
    gas_limit = 21_000;
    to = none;
    value = 0;
    payload = [];
    chain_id = 8453;
  });
  signature = record { r = []; s = []; v = 0 };
  encoded = [];
  hash = 5 ∷ [];
}

funds_definitive : is_definitive_precheck_rejection json insufficient_funds ≡ true
unfolding is_definitive_precheck_rejection
funds_definitive = refl

returned_run :
    available (send_signed json chain_nonce wallet tx (err insufficient_funds) 1 2).0.tracker 28
    ≡ true
unfolding nonce
returned_run =
    send_signed_returns json chain_nonce wallet tx insufficient_funds 1 2 tracker-IsValid
      funds_definitive (omega arith)

send_signed_frees_example :
    (available tracker 28 ≡ true)
    ⊎ ((28 ≡ nonce tx.typed_tx) × (is_released_by json (err insufficient_funds) ≡ true))
send_signed_frees_example =
    send_signed_frees json chain_nonce wallet tx (err insufficient_funds) 1 2 28 tracker-IsValid
      returned_run

abbrev refusing : Setting
refusing = setting (refused [])

refused_run : (sign refusing wallet new_request 5).1 ≡ err (signing_error [])
unfolding sign build_and_sign build new_request
refused_run = refl

sign_failed_restores_case :
    available (sign refusing wallet new_request 5).0.tracker 26 ≡ available tracker 26
sign_failed_restores_case =
    sign_failed_restores refusing wallet (sign refusing wallet new_request 5).0 new_request
      (signing_error []) 5 26 (omega arith) tracker-IsValid
      (ap (λ r. ((sign refusing wallet new_request 5).0, r)) refused_run)

abbrev signing : Setting
signing = setting (signature [] 0)

-- 28 is at the chain's head, 40 seconds old.
abbrev meets : Meets
meets = record {
  started = 40_000_000_000;
  during_latest = λ w. w;
  chain_latest = ok 28;
  observed = 40_000_000_000;
  during_fees = λ w. w;
  priority_fee = ok 3;
  gas_price = ok 50;
  during_broadcast = λ w. w;
  broadcast = λ b. ok (9 ∷ []);
  recorded = 41_000_000_000;
  finished = 41_000_000_000;
}

abbrev after : FastWallet
after = (replace_stalled_nonce signing meets 28 0 wallet).0

cancelled_run : (replace_stalled_nonce signing meets 28 0 wallet).1 ≡ ok (cancelled 28 (7 ∷ []))
unfolding replace_stalled_nonce prune_consumed lowest_unresolved_at_or_above find from_key
    build_and_sign build snapshot peek
cancelled_run = refl

replace_once_example : replace_stalled_nonce signing meets 28 0 after ≡ (after, ok not_stalled)
replace_once_example =
    replace_once signing meets 28 0 wallet after 28 (7 ∷ []) meets
      (ap (λ r. (after, r)) cancelled_run) (omega arith)
