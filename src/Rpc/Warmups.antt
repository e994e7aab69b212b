-- ===== src/Rpc/Warmups.antt =====
-- `BatchRpcClient::warmup` of src/rpc/batch.rs: the warmups of its clients, which run side by side, each on a client
-- of its own. What the network does with the probe of a URL, and when, is an argument.
use fast_wallet.Base.{
  ℕ, suc, ◌-◌, ◌≡◌, refl, ap, ◌∙◌, Bool, true, false, List, [], ◌∷◌, Option, none, some, ltb,
  if◌then◌else◌, all, and_left, and_right, Bool-cases, inl, inr, arith,
}
use fast_wallet.Errors.{Message, timeout, WalletResult, ok, err}
use fast_wallet.Rpc.Warm.{probe_due, mark_success, mark_lost, loss_guard, disarm, drop_guard}
use fast_wallet.Rpc.Client.{
  RpcClient, Exchange, send_fails, body_fails, dropped, answers, should_skip_warmup, request,
  warmup, next_id, mark_request_started, answer_result, marked,
}
use fast_wallet.Rpc.Clients.{BatchRpcClient}
use fast_wallet.Rpc.Verdicts.{is_ok}

-- For each URL, what becomes of its probe, and the time.
abbrev pub Probes : Type 0
Probes = Message → Exchange Message × ℕ

abbrev pub warm_one : Probes → RpcClient → RpcClient × WalletResult {0} Unit
warm_one probes c = warmup c (probes c.url).0 (probes c.url).1

unfoldable pub warm_each : Probes → List RpcClient → List RpcClient × ℕ
unfolding warmup
warm_each probes [] = ([], 0)
warm_each probes (c ∷ cs) =
    let (c', result) = warm_one probes c in
    let (cs', n) = warm_each probes cs in (c' ∷ cs', if is_ok result then suc n else n)

unfoldable pub batch_warmup : Probes → BatchRpcClient → BatchRpcClient × ℕ
unfolding warm_each
batch_warmup probes batch =
    let (clients, n) = warm_each probes batch.clients in (record batch { clients = clients }, n)

-- The clients that a warmup would skip, each at the time of its probe.
abbrev pub skipped : Probes → List RpcClient → ℕ
skipped probes [] = 0
skipped probes (c ∷ cs) =
    let n = skipped probes cs in if should_skip_warmup c (probes c.url).1 then suc n else n

abbrev pub has_window : RpcClient → Bool
has_window c = ltb 0 c.warm.window

-- What a warmup makes of its probe.
abbrev pub outcome : Option (WalletResult Message) → WalletResult {0} Unit
outcome none = err timeout
outcome (some (ok id)) = ok tt
outcome (some (err e)) = err e

pub warmup-due :
    (c : RpcClient) (e : Exchange Message) (now : ℕ)
    → should_skip_warmup c now ≡ false
    → warmup c e now ≡ ((request c e now).0, outcome (request c e now).1)
unfolding warmup request answer_result
warmup-due c (send_fails text) now due = rw due refl
warmup-due c (body_fails text) now due = rw due refl
warmup-due c dropped now due = rw due refl
warmup-due c (answers (some error) result) now due = rw due refl
warmup-due c (answers none none) now due = rw due refl
warmup-due c (answers none (some result)) now due = rw due refl

pub warmup-skips :
    (c : RpcClient) (e : Exchange Message) (now : ℕ)
    → should_skip_warmup c now ≡ true
    → warmup c e now ≡ (c, ok tt)
unfolding warmup
warmup-skips c e now skips = rw skips refl

url-request : (c : RpcClient) (e : Exchange Message) (now : ℕ) → (request c e now).0.url ≡ c.url
unfolding request next_id mark_request_started
url-request c (send_fails text) now = refl
url-request c (body_fails text) now = refl
url-request c dropped now = refl
url-request c (answers error result) now = refl

pub url-warmup : (c : RpcClient) (e : Exchange Message) (now : ℕ) → (warmup c e now).0.url ≡ c.url
url-warmup c e now = elim (Bool-cases (should_skip_warmup c now)) [
  | inl skips ↦ ap (λ x. x.0.url) (warmup-skips c e now skips)
  | inr due ↦ ap (λ x. x.0.url) (warmup-due c e now due) ∙ url-request c e now
]

-- The client behind the probe of a warmup that is not skipped, and whether it succeeds.
probed-skips :
    (c : RpcClient) (e : Exchange Message) (now : ℕ)
    → has_window c ≡ true
    → should_skip_warmup c now ≡ false
    → should_skip_warmup (request c e now).0 now ≡ is_ok (outcome (request c e now).1)
unfolding should_skip_warmup request next_id mark_request_started probe_due answer_result marked
    mark_success mark_lost loss_guard disarm drop_guard
probed-skips c (send_fails text) now wide due = refl
probed-skips c (body_fails text) now wide due = refl
probed-skips c dropped now wide due = refl
probed-skips c (answers (some error) result) now wide due = due
probed-skips c (answers none none) now wide due = due
probed-skips c (answers none (some result)) now wide due =
    let none_passed : now - now ≡ 0 = omega arith in rw none_passed (rw wide refl)

-- Behind a warmup, another at the same time is skipped exactly when it succeeded.
pub skips-warmup :
    (c : RpcClient) (e : Exchange Message) (now : ℕ)
    → has_window c ≡ true
    → should_skip_warmup (warmup c e now).0 now ≡ is_ok (warmup c e now).1
skips-warmup c e now wide = elim (Bool-cases (should_skip_warmup c now)) [
  | inl skips ↦ rw (warmup-skips c e now skips) skips
  | inr due ↦ rw (warmup-due c e now due) (probed-skips c e now wide due)
]

warm_each-skipped :
    (probes : Probes) (cs : List RpcClient)
    → all has_window cs ≡ true
    → (warm_each probes cs).1 ≡ skipped probes (warm_each probes cs).0
unfolding warm_each
warm_each-skipped probes [] wide = refl
warm_each-skipped probes (c ∷ cs) wide =
    let (e, now) = probes c.url in
    let same = url-warmup c e now in
    let first = skips-warmup c e now (and_left (has_window c) (all has_window cs) wide) in
    let rest = warm_each-skipped probes cs (and_right (has_window c) (all has_window cs) wide) in
    rw (same, first, rest) refl

-- In a batch whose windows are not empty, whatever becomes of each probe: the warmup counts exactly the clients of which another warmup at
-- the same time would be skipped.
pub batch_warmup_counts :
    (probes : Probes) (batch : BatchRpcClient)
    → all has_window batch.clients ≡ true
    → (batch_warmup probes batch).1 ≡ skipped probes (batch_warmup probes batch).0.clients
unfolding batch_warmup
batch_warmup_counts probes batch wide = warm_each-skipped probes batch.clients wide
