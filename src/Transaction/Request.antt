-- ===== src/Transaction/Request.antt =====
-- `TransactionRequest` of src/transaction.rs: its setters, and the form that `build` chooses.
use fast_wallet.Base.{ℕ, ◌||◌, List, [], Option, none, some, is_some, unwrap_or, if◌then◌else◌}
use fast_wallet.Errors.{WalletResult, ok}
use fast_wallet.Transaction.{Bytes, AccessListItem, TypedTransaction, legacy, eip2930, eip1559}

pub record TransactionRequest : Type 0 where
  pub to : Option Bytes
  pub value : ℕ
  pub payload : Bytes
  pub gas_limit : ℕ
  pub nonce : ℕ
  pub chain_id : ℕ
  pub gas_price : Option ℕ
  pub max_fee_per_gas : Option ℕ
  pub max_priority_fee_per_gas : Option ℕ
  pub access_list : Option (List AccessListItem)

-- `Default`.
unfoldable pub new_request : TransactionRequest
new_request = record {
  to = none;
  value = 0;
  payload = [];
  gas_limit = 0;
  nonce = 0;
  chain_id = 0;
  gas_price = none;
  max_fee_per_gas = none;
  max_priority_fee_per_gas = none;
  access_list = none;
}

-- The setters, each of one field.
pub data Field : Type 0 where
  to payload : Bytes → Field
  value gas_limit nonce chain_id gas_price max_fee_per_gas max_priority_fee_per_gas : ℕ → Field

unfoldable pub set_request_field : Field → TransactionRequest → TransactionRequest
set_request_field (to address) q = record q { to = some address }
set_request_field (payload bytes) q = record q { payload = bytes }
set_request_field (value wei) q = record q { value = wei }
set_request_field (gas_limit limit) q = record q { gas_limit = limit }
set_request_field (nonce n) q = record q { nonce = n }
set_request_field (chain_id id) q = record q { chain_id = id }
set_request_field (gas_price price) q = record q { gas_price = some price }
set_request_field (max_fee_per_gas fee) q = record q { max_fee_per_gas = some fee }
set_request_field (max_priority_fee_per_gas fee) q = record q {
  max_priority_fee_per_gas = some fee;
}

unfoldable pub build : TransactionRequest → WalletResult TypedTransaction
build q =
    if is_some q.max_fee_per_gas || is_some q.max_priority_fee_per_gas
    then ok (
        eip1559 (record {
          chain_id = q.chain_id;
          nonce = q.nonce;
          max_priority_fee_per_gas = unwrap_or q.max_priority_fee_per_gas 1_000_000_000;
          max_fee_per_gas = unwrap_or q.max_fee_per_gas 100_000_000_000;
          gas_limit = q.gas_limit;
          to = q.to;
          value = q.value;
          payload = q.payload;
          access_list = unwrap_or q.access_list [];
        }))
    else if is_some q.access_list
    then ok (
        eip2930 (record {
          chain_id = q.chain_id;
          nonce = q.nonce;
          gas_price = unwrap_or q.gas_price 50_000_000_000;
          gas_limit = q.gas_limit;
          to = q.to;
          value = q.value;
          payload = q.payload;
          access_list = unwrap_or q.access_list [];
        }))
    else ok (
        legacy (record {
          nonce = q.nonce;
          gas_price = unwrap_or q.gas_price 50_000_000_000;
          gas_limit = q.gas_limit;
          to = q.to;
          value = q.value;
          payload = q.payload;
          chain_id = q.chain_id;
        }))
