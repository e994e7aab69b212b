-- ===== src/Wallet/Gas.antt =====
-- The gas price caches of src/wallet.rs. Durations and clock readings are milliseconds. What the provider or the
-- RPC client answers, and what other tasks do to the caches while a fetch waits for its turn, are arguments.
use fast_wallet.Base.{ℕ, ◌-◌, Bool, ◌&&◌, Option, none, some, ltb, if◌then◌else◌, unwrap_or}
use fast_wallet.Errors.{WalletResult, ok, err}

-- The settings that the caches read, of `WalletConfig`.
pub record GasSetting : Type 0 where
  pub gas_cache_duration : Option ℕ
  pub background_gas_refresh : Option ℕ
  pub max_gas_cache_age : ℕ
  pub optimistic_default_gas_price : ℕ
  pub optimistic_default_gas_limit : ℕ

-- A value with the instant at which it was fetched.
abbrev pub GasCache : Type 0
GasCache = Option (ℕ × ℕ)

pub record GasCaches : Type 0 where
  pub gas_price_cache : GasCache
  pub priority_fee_cache : GasCache

abbrev pub default_gas_cache_fallback : ℕ
default_gas_cache_fallback = 500

-- `Option::or`.
abbrev pub or_option {ℓ} : {A : Type ℓ} → Option A → Option A → Option A
or_option (some a) b = some a
or_option none b = b

module _ (G : GasSetting) where
  unfoldable pub effective_gas_cache_duration : ℕ
  effective_gas_cache_duration =
      unwrap_or (or_option G.gas_cache_duration G.background_gas_refresh) default_gas_cache_fallback

  unfoldable pub read_gas_cache : GasCache → ℕ → Option ℕ
  unfolding effective_gas_cache_duration
  read_gas_cache none now = none
  read_gas_cache (some (price, timestamp)) now =
      if ltb (now - timestamp) effective_gas_cache_duration
        && ltb (now - timestamp) G.max_gas_cache_age
      then some price
      else none

  -- The fetch, and the write of what it gives.
  unfoldable pub fetched_price : GasCaches → WalletResult ℕ → ℕ → GasCaches × WalletResult ℕ
  fetched_price caches (ok price) now =
      (record caches { gas_price_cache = some (price, now) }, ok price)
  fetched_price caches (err e) now = (caches, err e)

  unfoldable pub fetched_fee : GasCaches → WalletResult ℕ → ℕ → GasCaches × WalletResult ℕ
  fetched_fee caches (ok fee) now = (record caches { priority_fee_cache = some (fee, now) }, ok fee)
  fetched_fee caches (err e) now = (caches, err e)

  -- `meanwhile` is what other tasks do while this one waits for the mutex; the clock reads `now` before it and
  -- `turn` behind it.
  unfoldable pub get_gas_price :
      Option (WalletResult ℕ)
      → (GasCaches → GasCaches)
      → GasCaches
      → WalletResult ℕ
      → ℕ
      → ℕ
      → ℕ
      → GasCaches × WalletResult ℕ
  unfolding read_gas_cache fetched_price
  get_gas_price (some provided) meanwhile caches reply now turn done = (caches, provided)
  get_gas_price none meanwhile caches reply now turn done =
      elim (read_gas_cache caches.gas_price_cache now) [
        | some price ↦ (caches, ok price)
        | none ↦ elim (read_gas_cache (meanwhile caches).gas_price_cache turn) [
          | some price ↦ (meanwhile caches, ok price)
          | none ↦ fetched_price (meanwhile caches) reply done
        ]
      ]

  unfoldable pub get_priority_fee :
      Option (WalletResult ℕ)
      → (GasCaches → GasCaches)
      → GasCaches
      → WalletResult ℕ
      → ℕ
      → ℕ
      → ℕ
      → GasCaches × WalletResult ℕ
  unfolding read_gas_cache fetched_fee
  get_priority_fee (some provided) meanwhile caches reply now turn done = (caches, provided)
  get_priority_fee none meanwhile caches reply now turn done =
      elim (read_gas_cache caches.priority_fee_cache now) [
        | some fee ↦ (caches, ok fee)
        | none ↦ elim (read_gas_cache (meanwhile caches).priority_fee_cache turn) [
          | some fee ↦ (meanwhile caches, ok fee)
          | none ↦ fetched_fee (meanwhile caches) reply done
        ]
      ]

  -- `Result::ok`.
  abbrev ok_fee : WalletResult ℕ → Option ℕ
  ok_fee (ok fee) = some fee
  ok_fee (err e) = none

  abbrev with_fee : GasCaches → Option ℕ → ℕ → GasCaches
  with_fee caches none now = caches
  with_fee caches (some fee) now = record caches { priority_fee_cache = some (fee, now) }

  -- Both answers, of the provider if there is one, else of the RPC client, whose answers go into the caches.
  unfoldable pub refresh_gas_prices :
      Bool
      → GasCaches
      → WalletResult ℕ
      → WalletResult ℕ
      → ℕ
      → GasCaches × WalletResult (ℕ × Option ℕ)
  refresh_gas_prices provided caches (err e) fee now = (caches, err e)
  refresh_gas_prices provided caches (ok price) fee now =
      let updated : GasCaches = record caches { gas_price_cache = some (price, now) } in
      (if provided then caches else with_fee updated (ok_fee fee) now, ok (price, ok_fee fee))

  -- The price of `send_quick_liquidation`: a cached one that is not too old, or the configured one.
  unfoldable pub quick_gas_price : GasCache → ℕ → ℕ
  quick_gas_price none now = G.optimistic_default_gas_price
  quick_gas_price (some (price, ts)) now =
      if ltb (now - ts) G.max_gas_cache_age then price else G.optimistic_default_gas_price
