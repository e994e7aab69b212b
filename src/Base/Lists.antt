-- ===== src/Base/Lists.antt =====
-- Lists measured by native numbers, under the library's names.
use Prim.Native.Nat.{ℕ, zero, suc, ◌+◌, ◌≤◌}
use mathlib.Core.Path.{◌≡◌, refl, ap}
use mathlib.Core.Option.{Option, none, some}
use mathlib.Core.Logic.{◌≢◌}
use mathlib.Core.List.{List, [], ◌∷◌, ◌++◌}
use mathlib.Core.Bool.{Bool, true, false, ◌&&◌, ◌||◌}
use native.Mathlib.Omega.{arith}
use fast_wallet.Base.Tests.{if◌then◌else◌}

module _ {ℓ} {A : Type ℓ} where
  abbrev pub length : List A → ℕ
  length [] = 0
  length (x ∷ xs) = suc (length xs)

  pub length-append : (xs ys : List A) → length (xs ++ ys) ≡ length xs + length ys
  length-append [] ys = omega arith
  length-append (x ∷ xs) ys = omega (arith, length-append xs ys)

  -- `Iterator::any` and `Iterator::all`.
  abbrev pub any : (A → Bool) → List A → Bool
  any p [] = false
  any p (x ∷ xs) = p x || any p xs

  abbrev pub all : (A → Bool) → List A → Bool
  all p [] = true
  all p (x ∷ xs) = p x && all p xs

  -- `Iterator::filter`, by a Boolean test.
  abbrev pub keep : (A → Bool) → List A → List A
  keep p [] = []
  keep p (x ∷ xs) = if p x then x ∷ keep p xs else keep p xs

module _ {ℓ} {A : Type ℓ} where
  abbrev pub get_elem? : List A → ℕ → Option A
  get_elem? [] i = none
  get_elem? (x ∷ xs) zero = some x
  get_elem? (x ∷ xs) (suc i) = get_elem? xs i

  -- A write out of bounds changes nothing.
  abbrev pub set : List A → ℕ → A → List A
  set [] i v = []
  set (x ∷ xs) zero v = v ∷ xs
  set (x ∷ xs) (suc i) v = x ∷ set xs i v

  -- The sum of the weights of a list's elements.
  abbrev pub weigh : (A → ℕ) → List A → ℕ
  weigh w [] = 0
  weigh w (x ∷ xs) = w x + weigh w xs

  pub weigh-set :
      (w : A → ℕ) (xs : List A) (i : ℕ) (a b : A)
      → get_elem? xs i ≡ some a
      → weigh w (set xs i b) + w a ≡ weigh w xs + w b
  weigh-set w [] i a b h = cc
  weigh-set w (x ∷ xs) zero a b h = let e : x ≡ a = cc in rw e (omega arith)
  weigh-set w (x ∷ xs) (suc i) a b h = omega (arith, weigh-set w xs i a b h)

  pub le-weigh :
      (w : A → ℕ) (xs : List A) (i : ℕ) (a : A) → get_elem? xs i ≡ some a → w a ≤ weigh w xs
  le-weigh w [] i a h = cc
  le-weigh w (x ∷ xs) zero a h = let e : x ≡ a = cc in rw e (omega arith)
  le-weigh w (x ∷ xs) (suc i) a h = omega (arith, le-weigh w xs i a h)

  -- Two places weigh together at most what the list weighs.
  pub weigh_two :
      (w : A → ℕ) (xs : List A) (i j : ℕ) (a b : A)
      → get_elem? xs i ≡ some a
      → get_elem? xs j ≡ some b
      → i ≢ j
      → w a + w b ≤ weigh w xs
  weigh_two w [] i j a b h k d = cc
  weigh_two w (x ∷ xs) zero zero a b h k d = absurd (d refl)
  weigh_two w (x ∷ xs) zero (suc j) a b h k d =
      let e : x ≡ a = cc in rw e (omega (arith, le-weigh w xs j b k))
  weigh_two w (x ∷ xs) (suc i) zero a b h k d =
      let e : x ≡ b = cc in rw e (omega (arith, le-weigh w xs i a h))
  weigh_two w (x ∷ xs) (suc i) (suc j) a b h k d =
      omega (arith, weigh_two w xs i j a b h k (λ e. d (ap suc e)))

or_true : (a b : Bool) → b ≡ true → (a || b) ≡ true
or_true true b h = refl
or_true false b h = h

pub and_left : (a b : Bool) → (a && b) ≡ true → a ≡ true
and_left true b h = refl
and_left false b h = h

pub and_right : (a b : Bool) → (a && b) ≡ true → b ≡ true
and_right true b h = h
and_right false b h = cc

module _ {ℓ} {A : Type ℓ} where
  pub any-get_elem? :
      (p : A → Bool) (xs : List A) (i : ℕ) (x : A)
      → get_elem? xs i ≡ some x
      → p x ≡ true
      → any p xs ≡ true
  any-get_elem? p [] i x h t = cc
  any-get_elem? p (y ∷ ys) zero x h t = let e : y ≡ x = cc in rw (e, t) refl
  any-get_elem? p (y ∷ ys) (suc i) x h t = or_true (p y) (any p ys) (any-get_elem? p ys i x h t)

  pub all-get_elem? :
      (p : A → Bool) (xs : List A) (i : ℕ) (x : A)
      → all p xs ≡ true
      → get_elem? xs i ≡ some x
      → p x ≡ true
  all-get_elem? p [] i x t h = cc
  all-get_elem? p (y ∷ ys) zero x t h = let e : y ≡ x = cc in rw e at (and_left (p y) (all p ys) t)
  all-get_elem? p (y ∷ ys) (suc i) x t h = all-get_elem? p ys i x (and_right (p y) (all p ys) t) h

  pub get_elem?-all :
      (p : A → Bool) (xs : List A)
      → ((i : ℕ) (x : A) → get_elem? xs i ≡ some x → p x ≡ true)
      → all p xs ≡ true
  get_elem?-all p [] h = refl
  get_elem?-all p (y ∷ ys) h = rw (h 0 y refl) (get_elem?-all p ys (λ i x e. h (suc i) x e))
