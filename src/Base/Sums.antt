-- ===== src/Base/Sums.antt =====
-- Sums over lists, stable insertion sort, and what a sort keeps.
use Prim.Native.Nat.{ℕ, zero, suc, ◌+◌, ◌*◌, ◌≤◌}
use mathlib.Core.Path.{◌≡◌, refl}
use mathlib.Core.Logic.{inl, inr}
use mathlib.Core.Bool.{Bool}
use mathlib.Core.Option.{some}
use mathlib.Core.List.{List, [], ◌∷◌, ◌++◌}
use native.Mathlib.Omega.{arith}
use linux_net_x.Base.Tests.{if◌then◌else◌, Bool-cases}
use linux_net_x.Base.Lists.{keep, All, replicate, get_elem?, drop_at, set}

module _ {ℓ} {A : Type ℓ} where
  -- `sum(f(x) for x in xs)`
  abbrev pub sum_of : (A → ℕ) → List A → ℕ
  sum_of f [] = 0
  sum_of f (x ∷ xs) = f x + sum_of f xs

  pub sum_of-append : (f : A → ℕ) (xs ys : List A) → sum_of f (xs ++ ys) ≡ sum_of f xs + sum_of f ys
  sum_of-append f [] ys = omega arith
  sum_of-append f (x ∷ xs) ys = omega (arith, sum_of-append f xs ys)

  pub sum_of-replicate : (f : A → ℕ) (n : ℕ) (a : A) → sum_of f (replicate n a) ≡ n * f a
  sum_of-replicate f zero a = omega arith
  sum_of-replicate f (suc n) a = omega (arith, sum_of-replicate f n a)

  pub sum_of-keep_le : (f : A → ℕ) (p : A → Bool) (xs : List A) → sum_of f (keep p xs) ≤ sum_of f xs
  sum_of-keep_le f p [] = omega arith
  sum_of-keep_le f p (x ∷ xs) = ground (arith, sum_of-keep_le f p xs)

  pub sum_of-drop_at :
      (f : A → ℕ) (xs : List A) (i : ℕ) (a : A)
      → get_elem? xs i ≡ some a
      → f a + sum_of f (drop_at xs i) ≡ sum_of f xs
  sum_of-drop_at f [] i a e = cc
  sum_of-drop_at f (x ∷ xs) zero a e = ground arith
  sum_of-drop_at f (x ∷ xs) (suc i) a e = omega (arith, sum_of-drop_at f xs i a e)

  pub sum_of-set :
      (f : A → ℕ) (xs : List A) (i : ℕ) (a v : A)
      → get_elem? xs i ≡ some a
      → f a + sum_of f (set xs i v) ≡ f v + sum_of f xs
  sum_of-set f [] i a v e = cc
  sum_of-set f (x ∷ xs) zero a v e = ground arith
  sum_of-set f (x ∷ xs) (suc i) a v e = omega (arith, sum_of-set f xs i a v e)

  -- Python's `list.sort` is stable; `le x y` compares the keys.
  pub insert_by : (A → A → Bool) → A → List A → List A
  insert_by le x [] = x ∷ []
  insert_by le x (y ∷ ys) = if le x y then x ∷ y ∷ ys else y ∷ insert_by le x ys

  unfoldable pub sort_by : (A → A → Bool) → List A → List A
  unfolding insert_by
  sort_by le [] = []
  sort_by le (x ∷ xs) = insert_by le x (sort_by le xs)

  sum_of-insert_by :
      (f : A → ℕ) (le : A → A → Bool) (x : A) (xs : List A)
      → sum_of f (insert_by le x xs) ≡ f x + sum_of f xs
  unfolding insert_by
  sum_of-insert_by f le x [] = refl
  sum_of-insert_by f le x (y ∷ ys) = ground (arith, sum_of-insert_by f le x ys)

  pub sum_of-sort_by :
      (f : A → ℕ) (le : A → A → Bool) (xs : List A) → sum_of f (sort_by le xs) ≡ sum_of f xs
  unfolding sort_by
  sum_of-sort_by f le [] = refl
  sum_of-sort_by f le (x ∷ xs) =
      omega (arith, sum_of-insert_by f le x (sort_by le xs), sum_of-sort_by f le xs)

  All-insert_by {κ} :
      (P : A → Type κ) (le : A → A → Bool) (x : A) (xs : List A)
      → P x
      → All P xs
      → All P (insert_by le x xs)
  unfolding insert_by
  All-insert_by P le x [] hx h = (hx, tt)
  All-insert_by P le x (y ∷ ys) hx h = elim (Bool-cases (le x y)) [
    | inl e ↦ rw e (hx, h)
    | inr e ↦ rw e (h.0, All-insert_by P le x ys hx h.1)
  ]

  pub All-sort_by {κ} :
      (P : A → Type κ) (le : A → A → Bool) (xs : List A) → All P xs → All P (sort_by le xs)
  unfolding sort_by
  All-sort_by P le [] h = tt
  All-sort_by P le (x ∷ xs) h = All-insert_by P le x (sort_by le xs) h.0 (All-sort_by P le xs h.1)
