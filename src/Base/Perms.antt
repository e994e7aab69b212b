-- ===== src/Base/Perms.antt =====
-- What a list keeps under a permutation: the replies of racing calls, in the order of their arrival.
use Prim.Native.Nat.{ℕ, suc}
use mathlib.Core.Option.{some}
use mathlib.Core.List.{Permᴰ, Memᴰ, List, [], ◌∷◌, ◌++◌}
use mathlib.Core.Path.{◌≡◌, refl, sym, ap, ◌∙◌}
use mathlib.Core.Bool.{Bool, true, false, ◌||◌}
use fast_wallet.Base.Lists.{any, all, get_elem?, and_left, and_right}

pub or_swap : (a b c : Bool) → (a || (b || c)) ≡ (b || (a || c))
or_swap true true c = refl
or_swap true false c = refl
or_swap false b c = refl

module _ {ℓ} {A : Type ℓ} where
  pub any-Permᴰ : (p : A → Bool) (xs ys : List A) → Permᴰ xs ys → any p xs ≡ any p ys
  any-Permᴰ p _ _ Permᴰ.nil = refl
  any-Permᴰ p _ _ (Permᴰ.cons {l₁ = xs} {l₂ = ys} e q) = rw (e, any-Permᴰ p xs ys q) refl
  any-Permᴰ p _ _ (Permᴰ.swap {a' = a'} {b' = b'} {l = xs} e f) =
      rw (e, f) (or_swap (p b') (p a') (any p xs))
  any-Permᴰ p _ _ (Permᴰ.trans {l₁ = xs} {l₂ = ys} {l₃ = zs} q r) =
      any-Permᴰ p xs ys q ∙ any-Permᴰ p ys zs r

  pub Memᴰ-Permᴰ : {xs ys : List A} (r : A) → Permᴰ xs ys → Memᴰ r xs → Memᴰ r ys
  Memᴰ-Permᴰ r Permᴰ.nil m = m
  Memᴰ-Permᴰ r (Permᴰ.cons e q) (Memᴰ.head s) = Memᴰ.head (s ∙ e)
  Memᴰ-Permᴰ r (Permᴰ.cons e q) (Memᴰ.tail m) = Memᴰ.tail (Memᴰ-Permᴰ r q m)
  Memᴰ-Permᴰ r (Permᴰ.swap e f) (Memᴰ.head s) = Memᴰ.tail (Memᴰ.head (s ∙ e))
  Memᴰ-Permᴰ r (Permᴰ.swap e f) (Memᴰ.tail (Memᴰ.head s)) = Memᴰ.head (s ∙ f)
  Memᴰ-Permᴰ r (Permᴰ.swap e f) (Memᴰ.tail (Memᴰ.tail m)) = Memᴰ.tail (Memᴰ.tail m)
  Memᴰ-Permᴰ r (Permᴰ.trans p q) m = Memᴰ-Permᴰ r q (Memᴰ-Permᴰ r p m)

  pub Memᴰ-get_elem? : (x : A) (xs : List A) → Memᴰ x xs → (i : ℕ) × (get_elem? xs i ≡ some x)
  Memᴰ-get_elem? x _ (Memᴰ.head e) = (0, ap some (sym e))
  Memᴰ-get_elem? x _ (Memᴰ.tail {xs = xs} m) = let (i, e) = Memᴰ-get_elem? x xs m in (suc i, e)

  pub Memᴰ-right : (xs ys : List A) (x : A) → Memᴰ x ys → Memᴰ x (xs ++ ys)
  Memᴰ-right [] ys x m = m
  Memᴰ-right (z ∷ xs) ys x m = Memᴰ.tail (Memᴰ-right xs ys x m)

  pub all-append :
      (p : A → Bool) (xs ys : List A) → all p xs ≡ true → all p ys ≡ true → all p (xs ++ ys) ≡ true
  all-append p [] ys h k = k
  all-append p (x ∷ xs) ys h k =
      rw (and_left (p x) (all p xs) h) (all-append p xs ys (and_right (p x) (all p xs) h) k)
