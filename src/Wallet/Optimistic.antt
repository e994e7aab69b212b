-- ===== src/Wallet/Optimistic.antt =====
-- The convenience calls of src/wallet.rs that build a request and sign or send it. A send's result and the
-- chain's nonces are arguments, as in `send_signed`.
use fast_wallet.Base.{ℕ, List, [], ◌∷◌, Option, some, unwrap_or}
use fast_wallet.Errors.{Message, BroadcastFailure, WalletResult, ok, err}
use fast_wallet.Errors.Classify.{SyncBlock}
use fast_wallet.Transaction.{Bytes, nonce}
use fast_wallet.Transaction.Request.{TransactionRequest, new_request}
use fast_wallet.Transaction.Sign.{Transaction, build_and_sign}
use fast_wallet.Tracker
use fast_wallet.Ledger.{mark_mined}
use fast_wallet.Wallet.{FastWallet, Setting}
use fast_wallet.Wallet.Send.{
  hash_number, record_signed_or_release, sign, sign_with_nonce, send_signed,
}
use fast_wallet.Wallet.Gas.{GasSetting, GasCaches, quick_gas_price}
use fast_wallet.Wallet.Preheat.{PreheatedContext}
use fast_wallet.Wallet.Presend.{send_with_preheat}

unfoldable pub confirm_nonce : FastWallet → FastWallet
confirm_nonce w = record w { tracker = Tracker.confirm w.tracker }

unfoldable pub mark_transaction_mined : FastWallet → Transaction → ℕ → FastWallet
mark_transaction_mined w tx now = record w {
  inflight = mark_mined w.inflight (nonce tx.typed_tx) (hash_number tx.hash) now;
}

-- Each request signed with the one nonce, `sign_with_nonce`'s records being kept.
unfoldable pub sign_each :
    Setting
    → FastWallet
    → ℕ
    → List TransactionRequest
    → ℕ
    → FastWallet × List (WalletResult Transaction)
unfolding sign_with_nonce
sign_each S w n [] now = (w, [])
sign_each S w n (request ∷ requests) now =
    let (w', result) = sign_with_nonce S w request n now in
    let (w'', results) = sign_each S w' n requests now in (w'', result ∷ results)

unfoldable pub sign_alternatives :
    Setting
    → FastWallet
    → List TransactionRequest
    → ℕ
    → FastWallet × List (WalletResult Transaction)
unfolding sign_each
sign_alternatives S w requests now = sign_each S w (Tracker.peek w.tracker) requests now

unfoldable pub sign_eip1559 :
    Setting → FastWallet → Bytes → ℕ → Bytes → ℕ → ℕ → ℕ → ℕ → FastWallet × WalletResult Transaction
unfolding new_request record_signed_or_release
sign_eip1559 S w to value payload gas_limit max_fee_per_gas max_priority_fee_per_gas now =
    let (tracker, n) = Tracker.get_and_increment w.tracker in
    let request = record new_request {
      to = some to;
      value = value;
      payload = payload;
      gas_limit = gas_limit;
      max_fee_per_gas = some max_fee_per_gas;
      max_priority_fee_per_gas = some max_priority_fee_per_gas;
      nonce = n;
      chain_id = S.chain_id;
    } in
    record_signed_or_release (record w { tracker = tracker }) n (build_and_sign S.crypto request)
      now

unfoldable pub sign_legacy :
    Setting → FastWallet → Bytes → ℕ → Bytes → ℕ → ℕ → ℕ → FastWallet × WalletResult Transaction
unfolding new_request record_signed_or_release
sign_legacy S w to value payload gas_limit gas_price now =
    let (tracker, n) = Tracker.get_and_increment w.tracker in
    let request = record new_request {
      to = some to;
      value = value;
      payload = payload;
      gas_limit = gas_limit;
      gas_price = some gas_price;
      nonce = n;
      chain_id = S.chain_id;
    } in
    record_signed_or_release (record w { tracker = tracker }) n (build_and_sign S.crypto request)
      now

-- The request of `send_optimistic_liquidation`.
unfoldable pub liquidation_request : Bytes → Bytes → ℕ → ℕ → TransactionRequest
unfolding new_request
liquidation_request to payload gas_limit gas_price = record new_request {
  to = some to;
  payload = payload;
  gas_limit = gas_limit;
  gas_price = some gas_price;
}

unfoldable pub eth_request : Bytes → ℕ → ℕ → TransactionRequest
unfolding new_request
eth_request to value gas_price = record new_request {
  to = some to;
  value = value;
  gas_limit = 21_000;
  gas_price = some gas_price;
}

unfoldable pub contract_call_request : Bytes → Bytes → ℕ → Option ℕ → ℕ → TransactionRequest
unfolding new_request
contract_call_request to payload gas_limit value gas_price = record new_request {
  to = some to;
  payload = payload;
  gas_limit = gas_limit;
  gas_price = some gas_price;
  value = unwrap_or value 0;
}

unfoldable pub contract_call_eip1559_request :
    Bytes → Bytes → ℕ → Option ℕ → ℕ → ℕ → TransactionRequest
unfolding new_request
contract_call_eip1559_request to payload gas_limit value max_fee_per_gas max_priority_fee_per_gas =
    record new_request {
      to = some to;
      payload = payload;
      gas_limit = gas_limit;
      max_fee_per_gas = some max_fee_per_gas;
      max_priority_fee_per_gas = some max_priority_fee_per_gas;
      value = unwrap_or value 0;
    }

module _ (S : Setting) (json : BroadcastFailure → Message)
    (chain_nonce : SyncBlock → WalletResult ℕ) (broadcast : Transaction → WalletResult Bytes) where
  -- `send_signed` if there is a transaction.
  unfoldable pub send_if_signed :
      FastWallet → WalletResult Transaction → ℕ → ℕ → FastWallet × WalletResult Bytes
  unfolding send_signed
  send_if_signed w (err e) now settled = (w, err e)
  send_if_signed w (ok tx) now settled =
      send_signed json chain_nonce w tx (broadcast tx) now settled

  -- `send`, and `send_optimistic`, which has the same body.
  unfoldable pub send : FastWallet → TransactionRequest → ℕ → ℕ → FastWallet × WalletResult Bytes
  unfolding sign send_if_signed
  send w request now settled =
      let (w', signed) = sign S w request now in send_if_signed w' signed now settled

  unfoldable pub send_optimistic_liquidation :
      FastWallet → Bytes → Bytes → ℕ → ℕ → ℕ → ℕ → FastWallet × WalletResult Bytes
  unfolding liquidation_request send
  send_optimistic_liquidation w to payload gas_limit gas_price now settled =
      send w (liquidation_request to payload gas_limit gas_price) now settled

  unfoldable pub send_quick_liquidation :
      GasSetting → GasCaches → FastWallet → Bytes → Bytes → ℕ → ℕ → FastWallet × WalletResult Bytes
  unfolding quick_gas_price liquidation_request send
  send_quick_liquidation G caches w to payload now settled =
      send w
        (liquidation_request to payload G.optimistic_default_gas_limit
          (quick_gas_price G caches.gas_price_cache now))
        now settled

  -- The sends of a batch run side by side; here they settle in the order of the requests.
  unfoldable pub sign_all :
      FastWallet → List TransactionRequest → ℕ → FastWallet × List (WalletResult Transaction)
  unfolding sign
  sign_all w [] now = (w, [])
  sign_all w (request ∷ requests) now =
      let (w', signed) = sign S w request now in
      let (w'', more) = sign_all w' requests now in (w'', signed ∷ more)

  unfoldable pub send_all :
      FastWallet → List (WalletResult Transaction) → ℕ → ℕ → FastWallet × List (WalletResult Bytes)
  unfolding send_if_signed
  send_all w [] now settled = (w, [])
  send_all w (signed ∷ more) now settled =
      let (w', result) = send_if_signed w signed now settled in
      let (w'', results) = send_all w' more now settled in (w'', result ∷ results)

  unfoldable pub send_batch :
      FastWallet → List TransactionRequest → ℕ → ℕ → FastWallet × List (WalletResult Bytes)
  unfolding sign_all send_all
  send_batch w requests now settled =
      let (w', signed) = sign_all w requests now in send_all w' signed now settled

module _ (S : Setting) (json : BroadcastFailure → Message)
    (chain_nonce : SyncBlock → WalletResult ℕ) where
  unfoldable pub send_optimistic_with_preheat :
      GasSetting
      → FastWallet
      → PreheatedContext
      → Bytes
      → Bytes
      → ℕ
      → WalletResult Bytes
      → ℕ
      → ℕ
      → FastWallet × PreheatedContext × WalletResult Bytes
  unfolding liquidation_request send_with_preheat
  send_optimistic_with_preheat G w ctx to payload gas_limit result now settled =
      send_with_preheat json chain_nonce S w ctx
        (liquidation_request to payload gas_limit
          (unwrap_or ctx.gas_price G.optimistic_default_gas_price))
        result now settled
