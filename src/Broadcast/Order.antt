-- ===== src/Broadcast/Order.antt =====
-- The order of the endpoints: a built broadcaster has them by priority, and tries them so.
use mathlib.Core.List.{Permᴰ, Memᴰ}
use mathlib.Core.Path.{subst}
use fast_wallet.Base.{
  ℕ, ◌≤◌, ◌≡◌, refl, sym, ap, List, [], ◌∷◌, ◌++◌, map, leb, some, Bool-cases, inl, inr, arith,
}
use fast_wallet.Errors.{Message, WalletError, WalletResult, ok, err}
use fast_wallet.Transaction.{Bytes}
use fast_wallet.Broadcast.Endpoint.{RpcEndpoint, endpoint_host}
use fast_wallet.Broadcast.Strategy.{BroadcastResult, Reply, race, ended, broadcast_priority}
use fast_wallet.Broadcast.Builder.{
  TransactionBroadcaster, BroadcasterBuilder, insert, sort_by_priority, add_endpoint,
  new_broadcaster, build_broadcaster,
}

-- No endpoint of the list has a priority below `low`.
abbrev AtLeast : ℕ → List RpcEndpoint → Type 0
AtLeast low [] = Unit
AtLeast low (e ∷ es) = (low ≤ e.priority) × AtLeast low es

abbrev pub SortedByPriority : List RpcEndpoint → Type 0
SortedByPriority [] = Unit
SortedByPriority (e ∷ es) = AtLeast e.priority es × SortedByPriority es

AtLeast-lower : (a b : ℕ) (es : List RpcEndpoint) → a ≤ b → AtLeast b es → AtLeast a es
AtLeast-lower a b [] le h = tt
AtLeast-lower a b (e ∷ es) le h = (omega (arith, h.0), AtLeast-lower a b es le h.1)

AtLeast-insert :
    (low : ℕ) (e : RpcEndpoint) (es : List RpcEndpoint)
    → low ≤ e.priority
    → AtLeast low es
    → AtLeast low (insert e es)
unfolding insert
AtLeast-insert low e [] le h = (le, tt)
AtLeast-insert low e (x ∷ xs) le h = elim (Bool-cases (leb e.priority x.priority)) [
  | inl first ↦ rw first (le, h)
  | inr later ↦ rw later (h.0, AtLeast-insert low e xs le h.1)
]

insert-Sorted :
    (e : RpcEndpoint) (es : List RpcEndpoint) → SortedByPriority es → SortedByPriority (insert e es)
unfolding insert
insert-Sorted e [] s = (tt, tt)
insert-Sorted e (x ∷ xs) s = elim (Bool-cases (leb e.priority x.priority)) [
  | inl first ↦
      let le : e.priority ≤ x.priority = ground arith in
      rw first ((le, AtLeast-lower e.priority x.priority xs le s.0), s)
  | inr later ↦
      let le : x.priority ≤ e.priority = ground arith in
      rw later (AtLeast-insert x.priority e xs le s.0, insert-Sorted e xs s.1)
]

Permᴰ-refl : (es : List RpcEndpoint) → Permᴰ es es
Permᴰ-refl [] = Permᴰ.nil
Permᴰ-refl (e ∷ es) = Permᴰ.cons refl (Permᴰ-refl es)

insert-Permᴰ : (e : RpcEndpoint) (es : List RpcEndpoint) → Permᴰ (insert e es) (e ∷ es)
unfolding insert
insert-Permᴰ e [] = Permᴰ-refl (e ∷ [])
insert-Permᴰ e (x ∷ xs) = elim (Bool-cases (leb e.priority x.priority)) [
  | inl first ↦ rw first (Permᴰ-refl (e ∷ x ∷ xs))
  | inr later ↦ rw later (Permᴰ.trans (Permᴰ.cons refl (insert-Permᴰ e xs)) (Permᴰ.swap refl refl))
]

sort-Sorted : (es : List RpcEndpoint) → SortedByPriority (sort_by_priority es)
unfolding sort_by_priority
sort-Sorted [] = tt
sort-Sorted (e ∷ es) = insert-Sorted e (sort_by_priority es) (sort-Sorted es)

sort-Permᴰ : (es : List RpcEndpoint) → Permᴰ (sort_by_priority es) es
unfolding sort_by_priority
sort-Permᴰ [] = Permᴰ.nil
sort-Permᴰ (e ∷ es) =
    Permᴰ.trans (insert-Permᴰ e (sort_by_priority es)) (Permᴰ.cons refl (sort-Permᴰ es))

abbrev built_or :
    TransactionBroadcaster → WalletResult TransactionBroadcaster → TransactionBroadcaster
built_or t (ok built) = built
built_or t (err why) = t

-- A broadcaster that is built has the builder's endpoints, each as often, sorted by priority; an endpoint
-- that is added to a broadcaster joins its endpoints, and they are sorted, whatever they were before.
pub built-Sorted :
    (client : WalletResult {0} Unit) (b : BroadcasterBuilder) (t : TransactionBroadcaster)
    (e : RpcEndpoint)
    → build_broadcaster client b ≡ ok t
    → (SortedByPriority t.endpoints × Permᴰ t.endpoints b.endpoints)
      × (SortedByPriority (add_endpoint t e).endpoints
          × Permᴰ (add_endpoint t e).endpoints (t.endpoints ++ e ∷ []))
unfolding build_broadcaster new_broadcaster add_endpoint
built-Sorted (err why) b t e h = cc
built-Sorted (ok client) b t e h =
    let added = t.endpoints ++ e ∷ [] in
    let same = ap (λ r. (built_or t r).endpoints) h in
    (
      subst (λ es. SortedByPriority es × Permᴰ es b.endpoints) same
          (sort-Sorted b.endpoints, sort-Permᴰ b.endpoints),
      (sort-Sorted added, sort-Permᴰ added),
    )

AtLeast-Memᴰ :
    (low : ℕ) (replies : List Reply) (r : Reply)
    → AtLeast low (map (λ x. x.0) replies)
    → Memᴰ r replies
    → low ≤ r.0.priority
AtLeast-Memᴰ low [] r h m = elim m [ ]
AtLeast-Memᴰ low (x ∷ xs) r h (Memᴰ.head same) = subst (λ y. low ≤ y.0.priority) (sym same) h.0
AtLeast-Memᴰ low (x ∷ xs) r h (Memᴰ.tail m) = AtLeast-Memᴰ low xs r h.1 m

-- The endpoint whose answer a result reports, and that its priority does not exceed.
abbrev pub WonBelow : List Reply → BroadcastResult → ℕ → Type 0
WonBelow replies result top =
    (w : RpcEndpoint) × (hash : Bytes) × Memᴰ (w, ok hash) replies
    × (result.tx_hash ≡ some hash)
    × (result.first_success ≡ some (endpoint_host w.url))
    × (w.priority ≤ top)

WonBelow-tail :
    (x : Reply) (replies : List Reply) (result : BroadcastResult) (top : ℕ)
    → WonBelow replies result top
    → WonBelow (x ∷ replies) result top
WonBelow-tail x replies result top (w, hash, m, same_hash, same_host, le) =
    (w, hash, Memᴰ.tail m, same_hash, same_host, le)

race-WonBelow :
    (replies : List Reply) (es : List (Message × WalletError)) (e : RpcEndpoint) (hash : Bytes)
    → SortedByPriority (map (λ x. x.0) replies)
    → Memᴰ (e, ok hash) replies
    → WonBelow replies (ended (race replies es)) e.priority
unfolding race
race-WonBelow [] es e hash s m = elim m [ ]
race-WonBelow ((x, ok h) ∷ rs) es e hash s (Memᴰ.head same) =
    (x, h, Memᴰ.head refl, refl, refl, subst (λ y. y.0.priority ≤ e.priority) same (omega arith))
race-WonBelow ((x, ok h) ∷ rs) es e hash s (Memᴰ.tail m) =
    (x, h, Memᴰ.head refl, refl, refl, AtLeast-Memᴰ x.priority rs (e, ok hash) s.0 m)
race-WonBelow ((x, err why) ∷ rs) es e hash s (Memᴰ.head same) =
    let wrong : ok hash ≡ err why = ap (λ y. y.1) same in cc
race-WonBelow ((x, err why) ∷ rs) es e hash s (Memᴰ.tail m) =
    WonBelow-tail (x, err why) rs (ended (race rs (es ++ (endpoint_host x.url, why) ∷ [])))
      e.priority (race-WonBelow rs _ e hash s.1 m)

-- With the endpoints sorted by priority, the ordered strategy reports the answer of an endpoint whose
-- priority no endpoint that would take the transaction is below.
pub broadcast_priority-WonBelow :
    (replies : List Reply) (e : RpcEndpoint) (hash : Bytes)
    → SortedByPriority (map (λ x. x.0) replies)
    → Memᴰ (e, ok hash) replies
    → WonBelow replies (broadcast_priority replies) e.priority
unfolding broadcast_priority
broadcast_priority-WonBelow replies e hash s m = race-WonBelow replies [] e hash s m
