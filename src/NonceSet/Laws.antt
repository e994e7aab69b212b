-- ===== src/NonceSet/Laws.antt =====
-- Membership after each operation, sizes, and the order that the operations keep.
use fast_wallet.Base.{
  ℕ, suc, ◌+◌, ◌≤◌, ◌<◌, ◌≡◌, refl, true, false, ◌||◌, ◌&&◌, not, List, [], ◌∷◌, leb, ◌==◌, arith,
  length,
}
use fast_wallet.NonceSet.Defs.{contains, insert, remove, retain_from, Between}

pub Between-weaken :
    (lo lo' hi hi' : ℕ) (xs : List ℕ) → lo' ≤ lo → hi ≤ hi' → Between lo hi xs → Between lo' hi' xs
Between-weaken lo lo' hi hi' [] p q b = tt
Between-weaken lo lo' hi hi' (x ∷ xs) p q b =
    (omega arith, omega arith, Between-weaken (suc x) (suc x) hi hi' xs (omega arith) q b.2)

-- An element of an ordered set lies in its range.
pub contains-Between :
    (a lo hi : ℕ) (xs : List ℕ) → Between lo hi xs → contains a xs ≡ true → (lo ≤ a) × (suc a < hi)
unfolding contains
contains-Between a lo hi [] b h = cc
contains-Between a lo hi (x ∷ xs) b h = ground (arith, contains-Between a (suc x) hi xs b.2)

pub contains_below : (a lo hi : ℕ) (xs : List ℕ) → Between lo hi xs → a < lo → contains a xs ≡ false
unfolding contains
contains_below a lo hi [] b h = refl
contains_below a lo hi (x ∷ xs) b h = ground (arith, contains_below a (suc x) hi xs b.2)

pub contains-insert : (m a : ℕ) (xs : List ℕ) → contains m (insert a xs) ≡ (m == a || contains m xs)
unfolding contains insert
contains-insert m a [] = refl
contains-insert m a (x ∷ xs) = ground (arith, contains-insert m a xs)

pub contains-remove :
    (m a lo hi : ℕ) (xs : List ℕ)
    → Between lo hi xs
    → contains m (remove a xs) ≡ (contains m xs && not (m == a))
unfolding contains remove
contains-remove m a lo hi [] b = refl
contains-remove m a lo hi (x ∷ xs) b =
    ground (arith, contains-remove m a (suc x) hi xs b.2, contains_below m (suc x) hi xs b.2)

pub contains-retain_from :
    (m c : ℕ) (xs : List ℕ) → contains m (retain_from c xs) ≡ (contains m xs && leb c m)
unfolding contains retain_from
contains-retain_from m c [] = refl
contains-retain_from m c (x ∷ xs) = ground (arith, contains-retain_from m c xs)

pub insert-Between :
    (a lo hi : ℕ) (xs : List ℕ)
    → lo ≤ a
    → suc a < hi
    → Between lo hi xs
    → Between lo hi (insert a xs)
unfolding insert
insert-Between a lo hi [] p q b = (p, q, tt)
insert-Between a lo hi (x ∷ xs) p q b = ground (arith, insert-Between a (suc x) hi xs)

pub remove-Between : (a lo hi : ℕ) (xs : List ℕ) → Between lo hi xs → Between lo hi (remove a xs)
unfolding remove
remove-Between a lo hi [] b = tt
remove-Between a lo hi (x ∷ xs) b =
    ground (arith, remove-Between a (suc x) hi xs b.2, Between-weaken (suc x) lo hi hi xs)

pub retain_from-Between :
    (c lo hi : ℕ) (xs : List ℕ) → Between lo hi xs → Between lo hi (retain_from c xs)
unfolding retain_from
retain_from-Between c lo hi [] b = tt
retain_from-Between c lo hi (x ∷ xs) b = ground (
  arith,
  retain_from-Between c (suc x) hi xs b.2,
  Between-weaken (suc x) lo hi hi (retain_from c xs),
)

-- What is kept lies above the bound.
pub retain_from-above :
    (c lo hi : ℕ) (xs : List ℕ) → Between lo hi xs → Between c hi (retain_from c xs)
unfolding retain_from
retain_from-above c lo hi [] b = tt
retain_from-above c lo hi (x ∷ xs) b =
    ground (arith, retain_from-above c (suc x) hi xs b.2, retain_from-Between c (suc x) hi xs b.2)

-- Nothing is kept by a bound above the whole set.
pub retain_from-empty :
    (c lo hi : ℕ) (xs : List ℕ) → hi ≤ c → Between lo hi xs → retain_from c xs ≡ []
unfolding retain_from
retain_from-empty c lo hi [] p b = refl
retain_from-empty c lo hi (x ∷ xs) p b = ground (arith, retain_from-empty c (suc x) hi xs)

pub length-insert :
    (a lo hi : ℕ) (xs : List ℕ)
    → Between lo hi xs
    → contains a xs ≡ false
    → length (insert a xs) ≡ suc (length xs)
unfolding contains insert
length-insert a lo hi [] b h = refl
length-insert a lo hi (x ∷ xs) b h = ground (arith, length-insert a (suc x) hi xs b.2)

pub length-remove :
    (a : ℕ) (xs : List ℕ) → contains a xs ≡ true → suc (length (remove a xs)) ≡ length xs
unfolding contains remove
length-remove a [] h = cc
length-remove a (x ∷ xs) h = ground (arith, length-remove a xs)

-- A set within a range is no longer than the range.
pub length-Between : (lo hi : ℕ) (xs : List ℕ) → lo ≤ hi → Between lo hi xs → length xs + lo ≤ hi
length-Between lo hi [] p b = omega arith
length-Between lo hi (x ∷ xs) p b = omega (arith, length-Between (suc x) hi xs (omega arith) b.2)

pub remove-head : (a : ℕ) (xs : List ℕ) → remove a (a ∷ xs) ≡ xs
unfolding remove
remove-head a xs = ground arith

-- A set without the number below the top of its range fits the smaller range.
pub Between-narrow :
    (p lo : ℕ) (xs : List ℕ)
    → Between lo (suc (suc p)) xs
    → contains p xs ≡ false
    → Between lo (suc p) xs
unfolding contains
Between-narrow p lo [] b h = tt
Between-narrow p lo (x ∷ xs) b h = ground (arith, Between-narrow p (suc x) xs b.2)

pub Between-empty : (lo : ℕ) (xs : List ℕ) → Between lo 1 xs → xs ≡ []
Between-empty lo [] b = refl
Between-empty lo (x ∷ xs) b = absurd (omega arith)
