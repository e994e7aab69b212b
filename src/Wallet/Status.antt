-- ===== src/Wallet/Status.antt =====
-- `self_check` and `warmup` of src/wallet.rs, with the background refreshes, and what a wallet reports of itself. What
-- the chain and the gas sources answer are arguments.
use fast_wallet.Base.{ℕ, ◌/◌, ◌%◌, Bool, true, Option, none, some, ltb, if◌then◌else◌, u64_mod}
use fast_wallet.Errors.{WalletResult, ok, err}
use fast_wallet.Transaction.{Bytes}
use fast_wallet.Tracker
use fast_wallet.Wallet.{FastWallet}
use fast_wallet.Wallet.Send.{sync_nonce}
use fast_wallet.Wallet.Config.{WalletConfig}
use fast_wallet.Wallet.Build.{BuiltWallet}

pub record WalletStatus : Type 0 where
  pub address : Bytes
  pub balance : ℕ
  pub nonce : ℕ
  pub chain_id : ℕ

-- 10^18 wei.
abbrev pub wei_per_eth : ℕ
wei_per_eth = 1_000_000_000_000_000_000

-- The two words of which `balance_eth` makes a floating-point number: whole ethers, and the rest in wei. `none`
-- is the panic of `to::<u64>` where the ethers do not fit a word.
unfoldable pub balance_eth : WalletStatus → Option (ℕ × ℕ)
balance_eth s =
    if ltb (s.balance / wei_per_eth) u64_mod
    then some (s.balance / wei_per_eth, s.balance % wei_per_eth)
    else none

-- Both answers are awaited; the tracker is synced, and the status is printed before it is returned, if `info` says
-- that such lines are logged: the arguments of a line that is not logged are not computed. `none` is a panic.
unfoldable pub self_check :
    Bool
    → BuiltWallet
    → WalletResult ℕ
    → WalletResult ℕ
    → BuiltWallet × Option (WalletResult WalletStatus)
unfolding balance_eth
self_check info w (err e) nonce_result = (w, some (err e))
self_check info w (ok balance) (err e) = (w, some (err e))
self_check info w (ok balance) (ok nonce) =
    let status : WalletStatus = record {
      address = w.signer.address;
      balance = balance;
      nonce = nonce;
      chain_id = w.config.chain_id;
    } in
    let synced : FastWallet = record w.state {
      tracker = (Tracker.sync_forward w.state.tracker nonce).0;
    } in
    let printed : Option (WalletResult WalletStatus) = elim (balance_eth status) [
      | none ↦ none
      | some shown ↦ some (ok status)
    ] in
    (record w { state = synced }, if info then printed else some (ok status))

-- The first of the errors of the nonce and of the gas price; the priority fee may fail.
unfoldable pub warmup_wallet :
    BuiltWallet → WalletResult ℕ → WalletResult ℕ → BuiltWallet × WalletResult {0} Unit
unfolding sync_nonce
warmup_wallet w (err e) gas_price = (w, err e)
warmup_wallet w (ok chain_nonce) (err e) =
    (record w { state = (sync_nonce w.state (ok chain_nonce)).0 }, err e)
warmup_wallet w (ok chain_nonce) (ok price) =
    (record w { state = (sync_nonce w.state (ok chain_nonce)).0; warmed_up = true }, ok tt)

-- The interval of the task that `start_background_gas_refresh` spawns; `none` when it spawns none.
unfoldable pub background_gas_task : WalletConfig → Option ℕ
background_gas_task c = if c.has_gas_provider then none else c.background_gas_refresh
