-- ===== src/Wallet/Builds.antt =====
-- The two builds of a wallet agree.
use fast_wallet.Base.{ℕ, ◌≡◌, ◌⊎◌, Option, none, some}
use fast_wallet.Errors.{Message, WalletResult, ok}
use fast_wallet.Signer.{Keys, FastSigner}
use fast_wallet.Rpc.Warm.{ParsedUrl}
use fast_wallet.Wallet.Config.{FastWalletBuilder}
use fast_wallet.Wallet.Build.{BuiltWallet, with_known_nonce}

module _ (build_client : ℕ → Option Message) (parse : Message → Option ParsedUrl) where
  module _ (K : Keys) (b : FastWalletBuilder) where
    abbrev known : ℕ → WalletResult BuiltWallet
    known n = with_known_nonce K build_client parse b.private_key b.primary_rpc n b.config

    -- The chain's nonce, or the one that was given, is `n`.
    abbrev pub Starts : (FastSigner → WalletResult ℕ) → ℕ → Type 0
    Starts chain n =
        (b.initial_nonce ≡ some n)
        ⊎ ((b.initial_nonce ≡ none) × ((signer : FastSigner) → chain signer ≡ ok n))
