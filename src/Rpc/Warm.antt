-- ===== src/Rpc/Warm.antt =====
-- src/warm.rs: whether an endpoint needs a probe that primes its connection. A clock reading is a number of
-- milliseconds, an argument here.
use fast_wallet.Base.{ℕ, ◌-◌, ◌*◌, Bool, false, not, Option, none, some, ltb, if◌then◌else◌}
use fast_wallet.Errors.{Message}

-- What reqwest's URL parser gives, another crate: the scheme, and the text that it prints.
pub record ParsedUrl : Type 0 where
  pub is_https : Bool
  pub printed : Message

abbrev pub https_warmup_window : ℕ
https_warmup_window = 4 * 60 * 1000

abbrev pub http_warmup_window : ℕ
http_warmup_window = 60 * 1000

pub record WarmState : Type 0 where
  pub window : ℕ
  pub last_success : Option ℕ

-- `is_ok_and(|u| u.scheme() == "https")`.
abbrev is_ok_https : Option ParsedUrl → Bool
is_ok_https none = false
is_ok_https (some u) = u.is_https

module _ (parse : Message → Option ParsedUrl) where
  unfoldable pub for_url : Message → WarmState
  for_url url = record {
    window = if is_ok_https (parse url) then https_warmup_window else http_warmup_window;
    last_success = none;
  }

-- `is_some_and(fresh)`, in which the subtraction stops at 0.
abbrev is_fresh : ℕ → ℕ → Option ℕ → Bool
is_fresh window now none = false
is_fresh window now (some at) = ltb (now - at) window

unfoldable pub probe_due : WarmState → ℕ → Bool
probe_due state now = not (is_fresh state.window now state.last_success)

unfoldable pub mark_success : WarmState → ℕ → WarmState
mark_success state now = record state { last_success = some now }

unfoldable pub mark_lost : WarmState → WarmState
mark_lost state = record state { last_success = none }

-- A guard holds the state that it marks, or nothing once it is disarmed; the state itself is passed along.
pub data LossGuard : Type 0 where
  armed disarmed : LossGuard

unfoldable pub loss_guard : WarmState → LossGuard
loss_guard state = armed

unfoldable pub disarm : LossGuard → LossGuard
disarm guard = disarmed

unfoldable pub drop_guard : LossGuard → WarmState → WarmState
unfolding mark_lost
drop_guard armed state = mark_lost state
drop_guard disarmed state = state
