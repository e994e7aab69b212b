-- ===== src/Rpc/Receipts.antt =====
-- When waiting for a receipt ends with it, and what asking for a transaction can answer.
use fast_wallet.Base.{
  ℕ, suc, ◌+◌, ◌≤◌, ◌<◌, ◌≡◌, ◌≢◌, refl, sym, ap, ◌∙◌, Bool, true, false, not, List, [], ◌∷◌, ◌++◌,
  ◌&&◌, ◌||◌, if◌then◌else◌, all, Option, none, some, ltb, leb, Bool-cases, and_left, and_right,
  arith, inl, inr, ◌⊎◌,
}
use fast_wallet.Errors.{WalletError, rpc_error, WalletResult, ok, err}
use fast_wallet.Errors.Text.{codes}
use fast_wallet.Rpc.Send.{is_text}
use fast_wallet.Rpc.Client.{
  RpcClient, Value, Exchange, send_fails, body_fails, dropped, answers, answer_result, request,
}
use fast_wallet.Rpc.Reads.{
  tx_exists, get_transaction_receipt, Poll, poll_step, wait_from, wait_for_receipt,
  max_consecutive_receipt_errors,
}

-- The reply of a node that has no receipt yet, a null result.
abbrev pub is_absent : WalletError → Bool
is_absent (rpc_error text) = is_text text (codes "Empty response")
is_absent e = false

-- A poll that gives neither a receipt nor its absence.
abbrev pub poll_fails : Poll → Bool
poll_fails (elapsed, ok receipt) = false
poll_fails (elapsed, err e) = not (is_absent e)

abbrev pub finds_nothing : Poll → Bool
finds_nothing (elapsed, ok receipt) = false
finds_nothing (elapsed, err e) = true

-- Three polls that follow each other fail.
abbrev pub three_in_row : List Poll → Bool
three_in_row (a ∷ b ∷ c ∷ polls) =
    (poll_fails a && (poll_fails b && poll_fails c)) || three_in_row (b ∷ c ∷ polls)
three_in_row (a ∷ b ∷ []) = false
three_in_row (a ∷ []) = false
three_in_row [] = false

abbrev pub is_in_time : ℕ → Poll → Bool
is_in_time limit (elapsed, reply) = not (ltb limit elapsed)

sum-cases {ℓ κ} :
    {A : Type ℓ} {B : Type κ} (s : A ⊎ B) → ((a : A) × (s ≡ inl a)) ⊎ ((b : B) × (s ≡ inr b))
sum-cases (inl a) = inl (a, refl)
sum-cases (inr b) = inr (b, refl)

-- One round of the loop.
wait_round :
    (limit errors elapsed : ℕ) (reply : WalletResult Value) (polls : List Poll)
    → ltb limit elapsed ≡ false
    → ((errors' : ℕ) × (poll_step errors (get_transaction_receipt reply) ≡ inl errors')
        × (wait_from limit errors ((elapsed, reply) ∷ polls) ≡ wait_from limit errors' polls))
      ⊎ ((result : WalletResult Value) × (poll_step errors (get_transaction_receipt reply)
            ≡ inr result)
          × (wait_from limit errors ((elapsed, reply) ∷ polls) ≡ some result))
unfolding wait_from
wait_round limit errors elapsed reply polls h =
    elim (sum-cases (poll_step errors (get_transaction_receipt reply))) [
      | inl (errors', e) ↦ inl (errors', e, rw (h, e) refl)
      | inr (result, e) ↦ inr (result, e, rw (h, e) refl)
    ]

module _ {ℓ κ} {A : Type ℓ} {B : Type κ} where
  same_left : {a a' : A} → ◌≡◌ {A = A ⊎ B} (inl a) (inl a') → a ≡ a'
  same_left h = cc

  same_right : {b b' : B} → ◌≡◌ {A = A ⊎ B} (inr b) (inr b') → b ≡ b'
  same_right h = cc

  apart : {a : A} {b : B} → ◌≡◌ {A = A ⊎ B} (inl a) (inr b) → ⊥
  apart h = cc

read_absent : (e : WalletError) → is_absent e ≡ true → get_transaction_receipt (err e) ≡ ok none
unfolding get_transaction_receipt
read_absent (rpc_error text) h = rw h refl
read_absent _ h = cc

read_failing : (e : WalletError) → is_absent e ≡ false → get_transaction_receipt (err e) ≡ err e
unfolding get_transaction_receipt
read_failing (rpc_error text) h = rw h refl
read_failing _ h = refl

found_ends :
    (errors : ℕ) (receipt : Value)
    → poll_step errors (get_transaction_receipt (ok receipt)) ≡ inr (ok receipt)
unfolding poll_step get_transaction_receipt
found_ends errors receipt = refl

absent_resets :
    (errors : ℕ) (e : WalletError)
    → is_absent e ≡ true
    → poll_step errors (get_transaction_receipt (err e)) ≡ inl 0
unfolding poll_step
absent_resets errors e h = ap (poll_step errors) (read_absent e h)

failure_counts :
    (errors : ℕ) (e : WalletError)
    → is_absent e ≡ false
    → suc errors < max_consecutive_receipt_errors
    → poll_step errors (get_transaction_receipt (err e)) ≡ inl (suc errors)
unfolding poll_step
failure_counts errors e h few =
    let go : leb max_consecutive_receipt_errors (suc errors) ≡ false = ground arith in
    ap (poll_step errors) (read_failing e h) ∙ rw go refl

-- The polls that fail at the start.
abbrev leading : List Poll → ℕ
leading [] = 0
leading (a ∷ polls) = let n = leading polls in if poll_fails a then suc n else 0

three_in_row_later :
    (a : Poll) (polls : List Poll) → three_in_row (a ∷ polls) ≡ false → three_in_row polls ≡ false
three_in_row_later a [] h = refl
three_in_row_later a (b ∷ []) h = refl
three_in_row_later a (b ∷ c ∷ polls) h = ground arith

leading_few : (polls : List Poll) → three_in_row polls ≡ false → leading polls < 3
leading_few [] h = omega arith
leading_few (a ∷ []) h = ground arith
leading_few (a ∷ b ∷ []) h = ground arith
leading_few (a ∷ b ∷ c ∷ polls) h = ground (arith, h)

wait_on :
    (limit errors n t : ℕ) (reply : WalletResult Value) (polls : List Poll)
    → ltb limit t ≡ false
    → poll_step errors (get_transaction_receipt reply) ≡ inl n
    → wait_from limit errors ((t, reply) ∷ polls) ≡ wait_from limit n polls
wait_on limit errors n t reply polls in_time on =
    elim (wait_round limit errors t reply polls in_time) [
      | inl (m, step, goes) ↦ goes ∙ ap (λ k. wait_from limit k polls) (same_left (sym step ∙ on))
      | inr (result, step, ends) ↦ absurd (apart (sym on ∙ step))
    ]

wait_arrives :
    (limit errors : ℕ) (before : List Poll) (elapsed : ℕ) (receipt : Value) (after : List Poll)
    → all (is_in_time limit) before ≡ true
    → elapsed ≤ limit
    → all finds_nothing before ≡ true
    → three_in_row before ≡ false
    → errors + leading before < 3
    → wait_from limit errors (before ++ (elapsed, ok receipt) ∷ after) ≡ some (ok receipt)
wait_arrives limit errors [] elapsed receipt after early here nothing row few =
    let in_time : ltb limit elapsed ≡ false = ground arith in
    elim (wait_round limit errors elapsed (ok receipt) after in_time) [
      | inl (errors', step, goes) ↦ absurd (apart (sym step ∙ found_ends errors receipt))
      | inr (result, step, ends) ↦
          ends ∙ ap some (same_right (sym step ∙ found_ends errors receipt))
    ]
wait_arrives limit errors ((t, ok r) ∷ before) elapsed receipt after early here nothing row few = cc
wait_arrives limit errors ((t, err e) ∷ before) elapsed receipt after early here nothing row few =
    let in_time : ltb limit t ≡ false =
      ground
        (arith, and_left (is_in_time limit (t, err e)) (all (is_in_time limit) before) early) in
    let later = and_right (is_in_time limit (t, err e)) (all (is_in_time limit) before) early in
    let same = three_in_row_later (t, err e) before row in
    elim (Bool-cases (is_absent e)) [
      | inl absent ↦
          wait_on limit errors 0 t (err e) _ in_time (absent_resets errors e absent)
          ∙ wait_arrives limit 0 before elapsed receipt after later here nothing same
              (omega (arith, leading_few before same))
      | inr failing ↦
          let counted : errors + suc (leading before) < 3 = rw failing at few in
          wait_on limit errors (suc errors) t (err e) _ in_time
            (failure_counts errors e failing (omega (arith, counted)))
          ∙ wait_arrives limit (suc errors) before elapsed receipt after later here nothing same
              (omega (arith, counted))
    ]

-- If a poll that begins in time finds a receipt, and before it, all polls beginning in time too, none finds one and no three that follow
-- each other fail, a null result being no failure: then waiting for the receipt ends with that receipt.
pub receipt_arrives :
    (limit : ℕ) (before : List Poll) (elapsed : ℕ) (receipt : Value) (after : List Poll)
    → all (is_in_time limit) before ≡ true
    → elapsed ≤ limit
    → all finds_nothing before ≡ true
    → three_in_row before ≡ false
    → wait_for_receipt limit (before ++ (elapsed, ok receipt) ∷ after) ≡ some (ok receipt)
unfolding wait_for_receipt
receipt_arrives limit before elapsed receipt after early here nothing row =
    wait_arrives limit 0 before elapsed receipt after early here nothing row
      (omega (arith, leading_few before row))

-- The answer of `serde`, another crate, to a request whose result is an `Option`: a null is a missing result.
abbrev pub or_null : Exchange Value → Exchange (Option Value)
or_null (send_fails text) = send_fails text
or_null (body_fails text) = body_fails text
or_null dropped = dropped
or_null (answers error none) = answers error none
or_null (answers error (some value)) = answers error (some (some value))

pub some_same {ℓ} : {A : Type ℓ} {a b : A} → some a ≡ some b → a ≡ b
some_same h = cc

pub none-some {ℓ} : {A : Type ℓ} {a : A} → none ≡ some a → ⊥
none-some h = cc

ok_false : ok true ≡ ok false → ⊥
ok_false h = cc

err_false : {e : WalletError} → ◌≡◌ {A = WalletResult Bool} (err e) (ok false) → ⊥
err_false h = cc

-- Whatever the node answers to the request, a null result included, `tx_exists` does not give `false`.
pub tx_exists-never_false :
    (client : RpcClient) (exchange : Exchange Value) (now : ℕ) (reply : WalletResult (Option Value))
    → (request client (or_null exchange) now).1 ≡ some reply
    → tx_exists reply ≢ ok false
unfolding request tx_exists answer_result
tx_exists-never_false client (send_fails text) now reply h k =
    err_false (ap tx_exists (some_same h) ∙ k)
tx_exists-never_false client (body_fails text) now reply h k =
    err_false (ap tx_exists (some_same h) ∙ k)
tx_exists-never_false client dropped now reply h k = none-some h
tx_exists-never_false client (answers (some e) none) now reply h k =
    err_false (ap tx_exists (some_same h) ∙ k)
tx_exists-never_false client (answers none none) now reply h k =
    err_false (ap tx_exists (some_same h) ∙ k)
tx_exists-never_false client (answers (some e) (some v)) now reply h k =
    err_false (ap tx_exists (some_same h) ∙ k)
tx_exists-never_false client (answers none (some v)) now reply h k =
    ok_false (ap tx_exists (some_same h) ∙ k)
