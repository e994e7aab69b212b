-- ===== src/Rpc/Detail.antt =====
-- What an observer may learn of a failed request: src/rpc/detail.rs. A response body is another crate's: it fails, or
-- it is text that decodes as an answer or not, and that has an `error` object or not.
use fast_wallet.Base.{
  ℕ, Bool, ◌&&◌, ◌||◌, not, ◌++◌, Option, none, some, is_some, leb, if◌then◌else◌,
}
use fast_wallet.Errors.{Message, rpc_error, WalletResult, ok, err}
use fast_wallet.Errors.Text.{codes}
use fast_wallet.Rpc.Redact.{redact_urls}
use fast_wallet.Rpc.Client.{ℤ, RpcError}

-- The fixed categories, each for its text.
pub data Cause : Type 0 where
  timeout connect decode transport rpc_refusal http_status : Cause

pub record ErrorDetail : Type 0 where
  pub http_status : Option ℕ
  pub rpc_code : Option ℤ
  pub cause : Option Cause

-- `Default`.
abbrev pub no_detail : ErrorDetail
no_detail = record { http_status = none; rpc_code = none; cause = none }

-- An error of the HTTP crate: what it says of itself, and its text.
pub record HttpFailure : Type 0 where
  pub is_timeout : Bool
  pub is_connect : Bool
  pub is_decode : Bool
  pub text : Message

-- `Option::or` on a cause, which is what `get_or_insert` leaves.
abbrev pub or_cause : Option Cause → Cause → Option Cause
or_cause (some c) d = some c
or_cause none d = some d

unfoldable pub transport_detail : HttpFailure → ErrorDetail → ErrorDetail
transport_detail e d = record d {
  cause = some (
      if e.is_timeout
      then timeout
      else if e.is_connect
      then connect
      else if e.is_decode
      then decode
      else transport);
}

-- `error` is an object, with an integer code or without; or there is none.
abbrev pub ErrorView : Type 0
ErrorView = Option (Option ℤ)

unfoldable pub envelope : ErrorView → ErrorDetail → ErrorDetail
envelope none d = d
envelope (some code) d = record d { rpc_code = code; cause = or_cause d.cause rpc_refusal }

-- An answer's two parts.
pub record RpcAnswer {ℓ} (T : Type ℓ) : Type ℓ where
  pub error : Option RpcError
  pub result : Option T

-- The body: it does not arrive as JSON, or it does, and decodes as an answer or not; the second part is its view.
pub data Body {ℓ} (T : Type ℓ) : Type ℓ where
  broken : HttpFailure → Body T
  captured : Option (RpcAnswer T) → ErrorView → Body T

abbrev is_success : ℕ → Bool
is_success status = leb 200 status && leb status 299

abbrev with_status : ℕ → ErrorDetail → ErrorDetail
with_status status d = record d {
  http_status = some status;
  cause = if is_success status then d.cause else some http_status;
}

module _ {ℓ} {T : Type ℓ} where
  -- `decode_response` where a detail is kept.
  unfoldable pub decode_response :
      Message → ℕ → Body T → ErrorDetail → ErrorDetail × WalletResult (RpcAnswer T)
  unfolding transport_detail envelope redact_urls
  decode_response url status (broken e) d =
      let seen = with_status status d in
      (
        if not (is_some seen.cause) || e.is_timeout then transport_detail e seen else seen,
        err (rpc_error (redact_urls e.text)),
      )
  decode_response url status (captured (some answer) view) d =
      (envelope view (with_status status d), ok answer)
  decode_response url status (captured none view) d =
      let seen = envelope view (with_status status d) in
      (
        record seen { cause = or_cause seen.cause decode },
        err (
            rpc_error
              (redact_urls (codes "error decoding response body for url (" ++ (url ++ codes ")")))),
      )
