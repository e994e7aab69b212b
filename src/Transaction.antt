-- ===== src/Transaction.antt =====
-- src/transaction.rs: transaction types, their encoding, requests and signing. An address, a hash and a
-- payload are lists of bytes; a word and a U256 are numbers.
pub mod Rlp
pub mod Encode
pub mod Forms
pub mod Standards
pub mod Framing
pub mod Scalar
pub mod Request
pub mod Identity
pub mod Sign
pub mod Eip155
mod Tests
use fast_wallet.Base.{ℕ, List, Option, none, some}
use fast_wallet.Fees.{bump_u256}

abbrev pub Bytes : Type 0
Bytes = List ℕ

pub record AccessListItem : Type 0 where
  pub address : Bytes
  pub storage_keys : List Bytes

pub record LegacyTransaction : Type 0 where
  pub nonce : ℕ
  pub gas_price : ℕ
  pub gas_limit : ℕ
  pub to : Option Bytes
  pub value : ℕ
  pub payload : Bytes
  pub chain_id : ℕ

pub record Eip2930Transaction : Type 0 where
  pub chain_id : ℕ
  pub nonce : ℕ
  pub gas_price : ℕ
  pub gas_limit : ℕ
  pub to : Option Bytes
  pub value : ℕ
  pub payload : Bytes
  pub access_list : List AccessListItem

pub record Eip1559Transaction : Type 0 where
  pub chain_id : ℕ
  pub nonce : ℕ
  pub max_priority_fee_per_gas : ℕ
  pub max_fee_per_gas : ℕ
  pub gas_limit : ℕ
  pub to : Option Bytes
  pub value : ℕ
  pub payload : Bytes
  pub access_list : List AccessListItem

pub data TypedTransaction : Type 0 where
  legacy : LegacyTransaction → TypedTransaction
  eip2930 : Eip2930Transaction → TypedTransaction
  eip1559 : Eip1559Transaction → TypedTransaction

-- `RecoverableSignature` of src/signer.rs.
pub record RecoverableSignature : Type 0 where
  pub r : Bytes
  pub s : Bytes
  pub v : ℕ

unfoldable pub chain_id : TypedTransaction → ℕ
chain_id (legacy tx) = tx.chain_id
chain_id (eip2930 tx) = tx.chain_id
chain_id (eip1559 tx) = tx.chain_id

unfoldable pub nonce : TypedTransaction → ℕ
nonce (legacy tx) = tx.nonce
nonce (eip2930 tx) = tx.nonce
nonce (eip1559 tx) = tx.nonce

unfoldable pub max_fee_per_gas : TypedTransaction → Option ℕ
max_fee_per_gas (eip1559 tx) = some tx.max_fee_per_gas
max_fee_per_gas _ = none

unfoldable pub max_priority_fee_per_gas : TypedTransaction → Option ℕ
max_priority_fee_per_gas (eip1559 tx) = some tx.max_priority_fee_per_gas
max_priority_fee_per_gas _ = none

unfoldable pub with_bumped_fees : TypedTransaction → ℕ → Option TypedTransaction
with_bumped_fees (eip1559 tx) bump_bps = some (
    eip1559 (record tx {
      max_priority_fee_per_gas = bump_u256 tx.max_priority_fee_per_gas bump_bps;
      max_fee_per_gas = bump_u256 tx.max_fee_per_gas bump_bps;
    }))
with_bumped_fees _ bump_bps = none
