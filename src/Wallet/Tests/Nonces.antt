-- ===== src/Wallet/Tests/Nonces.antt =====
-- The theorems on the nonces of signing, at the wallet of the tests.
use fast_wallet.Base.{◌≡◌, refl, ap, [], ◌∷◌, length, none, arith}
use fast_wallet.Errors.{ok}
use fast_wallet.Transaction.{Bytes, chain_id, nonce}
use fast_wallet.Transaction.Identity.{intent}
use fast_wallet.Transaction.Request.{new_request, build}
use fast_wallet.Transaction.Sign.{Transaction, build_and_sign}
use fast_wallet.Tracker
use fast_wallet.Tracker.Availability.{Takes}
use fast_wallet.Wallet.{FastWallet}
use fast_wallet.Wallet.Send.{sign}
use fast_wallet.Wallet.Optimistic.{sign_all}
use fast_wallet.Wallet.Nonces.{signed_nonces, TakesAll, sign-Announced, sign_all-TakesAll}
use fast_wallet.Wallet.Tests.{json, chain_nonce, tracker, tracker-IsValid, wallet, signing}

abbrev signed_wallet : FastWallet
signed_wallet = (sign signing wallet new_request 5).0

abbrev signed : Transaction
signed = record {
  typed_tx = fast_wallet.Transaction.legacy (record {
    nonce = 26;
    gas_price = 50_000_000_000;
    gas_limit = 21_000;
    to = none;
    value = 0;
    payload = [];
    chain_id = 8453;
  });
  signature = record { r = []; s = []; v = 16941 };
  encoded = 128 ∷ [];
  hash = 7 ∷ [];
}

signed_run : (sign signing wallet new_request 5).1 ≡ ok signed
unfolding sign build_and_sign build new_request Tracker.get_and_increment
    fast_wallet.Transaction.Forms.encode_signed fast_wallet.Transaction.Encode.encode_to
    fast_wallet.Transaction.Encode.encode_signature_scalar
signed_run = refl

sign-Announced_example :
    (chain_id signed.typed_tx ≡ 8453)
    × (intent signed.typed_tx ≡ (new_request.to, new_request.value, new_request.payload))
    × Takes tracker (signed_wallet.tracker, nonce signed.typed_tx)
sign-Announced_example =
    sign-Announced signing wallet signed_wallet new_request signed 5 (omega arith) tracker-IsValid
      (ap (λ r. (signed_wallet, r)) signed_run)

-- A batch of three: two gaps, and the counter.
nonces_run :
    signed_nonces
      (sign_all signing json chain_nonce
        (λ t. ok [])
        wallet
        (new_request ∷ new_request ∷ new_request ∷ [])
        5).1
    ≡ 26 ∷ 27 ∷ 29 ∷ []
unfolding sign_all build_and_sign build new_request nonce fast_wallet.NonceSet.remove
    Tracker.get_and_increment
nonces_run = refl

sign_all-TakesAll_example :
    (length
        (sign_all signing json chain_nonce (λ t. ok []) wallet (new_request ∷ new_request ∷ []) 5).1
      ≡ 2)
    × TakesAll tracker
        (sign_all signing json chain_nonce
          (λ t. ok [])
          wallet
          (new_request ∷ new_request ∷ [])
          5).0.tracker
        (signed_nonces
          (sign_all signing json chain_nonce
            (λ t. ok [])
            wallet
            (new_request ∷ new_request ∷ [])
            5).1)
sign_all-TakesAll_example =
    sign_all-TakesAll signing json chain_nonce (λ t. ok []) wallet (new_request ∷ new_request ∷ [])
      5 (omega arith) tracker-IsValid
