-- ===== src/Transaction/Rlp.antt =====
-- What the encoders use of alloy's RLP: the encodings and, as alloy documents it, that each length
-- function tells the length of its encoding. None of it is code of this repository.
use fast_wallet.Base.{ℕ, ◌≡◌, length}
use fast_wallet.Transaction.{Bytes}

pub record Rlp : Type 0 where
  -- `Encodable` for the unsigned integers.
  pub uint : ℕ → Bytes
  pub uint_length : ℕ → ℕ
  -- `Encodable` for `Bytes` and `[u8]`.
  pub string : Bytes → Bytes
  pub string_length : Bytes → ℕ
  -- `Encodable` for `Address` and `B256`.
  pub fixed : Bytes → Bytes
  pub fixed_length : Bytes → ℕ
  -- `Header { list: true, payload_length }.encode`, and `length_of_length`.
  pub list_header : ℕ → Bytes
  pub length_of_length : ℕ → ℕ

pub record IsExact (R : Rlp) : Type 0 where
  pub uint_exact : (n : ℕ) → R.uint_length n ≡ length (R.uint n)
  pub string_exact : (b : Bytes) → R.string_length b ≡ length (R.string b)
  pub fixed_exact : (b : Bytes) → R.fixed_length b ≡ length (R.fixed b)
  pub header_exact : (n : ℕ) → R.length_of_length n ≡ length (R.list_header n)
  pub zero_exact : length (R.uint 0) ≡ 1
