-- ===== src/Base/Lists.antt =====
-- Lists measured by native numbers, under the library's names, and predicates by recursion.
use Prim.Native.Nat.{ℕ, zero, suc, ◌+◌, ◌<◌}
use mathlib.Core.Path.{◌≡◌, refl, ap, subst}
use mathlib.Core.Logic.{◌⊎◌, inl, inr}
use mathlib.Core.Bool.{Bool, true, false, ◌||◌}
use mathlib.Core.Option.{Option, none, some}
use mathlib.Core.List.{List, [], ◌∷◌, ◌++◌, map}
use native.Mathlib.Omega.{arith}
use linux_net_x.Base.Tests.{if◌then◌else◌, Bool-cases}

module _ {ℓ} {A : Type ℓ} where
  abbrev pub length : List A → ℕ
  length [] = 0
  length (x ∷ xs) = suc (length xs)

  abbrev pub replicate : ℕ → A → List A
  replicate zero a = []
  replicate (suc n) a = a ∷ replicate n a

  -- A write out of bounds changes nothing.
  abbrev pub set : List A → ℕ → A → List A
  set [] i v = []
  set (x ∷ xs) zero v = v ∷ xs
  set (x ∷ xs) (suc i) v = x ∷ set xs i v

  -- `xs[i]`; a read out of range is `none`.
  abbrev pub get_elem? : List A → ℕ → Option A
  get_elem? [] i = none
  get_elem? (x ∷ xs) zero = some x
  get_elem? (x ∷ xs) (suc i) = get_elem? xs i

  -- `xs.pop(i)`
  abbrev pub drop_at : List A → ℕ → List A
  drop_at [] i = []
  drop_at (x ∷ xs) zero = xs
  drop_at (x ∷ xs) (suc i) = x ∷ drop_at xs i

  -- `[x for x in xs if p(x)]`
  abbrev pub keep : (A → Bool) → List A → List A
  keep p [] = []
  keep p (x ∷ xs) = if p x then x ∷ keep p xs else keep p xs

  -- `any(p(x) for x in xs)`
  abbrev pub any_of : (A → Bool) → List A → Bool
  any_of p [] = false
  any_of p (x ∷ xs) = p x || any_of p xs

  abbrev pub All {κ} : (A → Type κ) → List A → Type κ
  All P [] = Unit
  All P (x ∷ xs) = P x × All P xs

  pub length-append : (xs ys : List A) → length (xs ++ ys) ≡ length xs + length ys
  length-append [] ys = omega arith
  length-append (x ∷ xs) ys = omega (arith, length-append xs ys)

  pub length-replicate : (n : ℕ) (a : A) → length (replicate n a) ≡ n
  length-replicate zero a = refl
  length-replicate (suc n) a = ap suc (length-replicate n a)

  pub All-append {κ} : (P : A → Type κ) (xs ys : List A) → All P xs → All P ys → All P (xs ++ ys)
  All-append P [] ys hx hy = hy
  All-append P (x ∷ xs) ys hx hy = (hx.0, All-append P xs ys hx.1 hy)

  pub All-replicate {κ} : (P : A → Type κ) (n : ℕ) (a : A) → P a → All P (replicate n a)
  All-replicate P zero a h = tt
  All-replicate P (suc n) a h = (h, All-replicate P n a h)

  pub All-map {κ μ} :
      (P : A → Type κ) (Q : A → Type μ) (xs : List A) → ((a : A) → P a → Q a) → All P xs → All Q xs
  All-map P Q [] f h = tt
  All-map P Q (x ∷ xs) f h = (f x h.0, All-map P Q xs f h.1)

  pub All-and {κ μ} :
      (P : A → Type κ) (Q : A → Type μ) (xs : List A)
      → All P xs
      → All Q xs
      → All (λ x. P x × Q x) xs
  All-and P Q [] h k = tt
  All-and P Q (x ∷ xs) h k = ((h.0, k.0), All-and P Q xs h.1 k.1)

  -- What holds of all that a filter keeps holds of all that pass its test.
  pub All-of_keep {κ} :
      (Q : A → Type κ) (p : A → Bool) (xs : List A)
      → All Q (keep p xs)
      → All (λ x. p x ≡ true → Q x) xs
  All-of_keep Q p [] h = tt
  All-of_keep Q p (x ∷ xs) h = elim (Bool-cases (p x)) [
    | inl e ↦ let h' : Q x × All Q (keep p xs) = rw e at h in ((λ _. h'.0), All-of_keep Q p xs h'.1)
    | inr e ↦ let h' : All Q (keep p xs) = rw e at h in ((λ f. cc), All-of_keep Q p xs h')
  ]

  pub any_of-false : (p : A → Bool) (xs : List A) → any_of p xs ≡ false → All (λ x. p x ≡ false) xs
  any_of-false p [] e = tt
  any_of-false p (x ∷ xs) e = (ground arith, any_of-false p xs (ground arith))

  -- What a filter keeps passes its test.
  pub All-keep : (p : A → Bool) (xs : List A) → All (λ x. p x ≡ true) (keep p xs)
  All-keep p [] = tt
  All-keep p (x ∷ xs) = elim (Bool-cases (p x)) [
    | inl e ↦ rw e (e, All-keep p xs)
    | inr e ↦ rw e (All-keep p xs)
  ]

  pub All-keep_of_All {κ} :
      (P : A → Type κ) (p : A → Bool) (xs : List A) → All P xs → All P (keep p xs)
  All-keep_of_All P p [] h = tt
  All-keep_of_All P p (x ∷ xs) h = elim (Bool-cases (p x)) [
    | inl e ↦ rw e (h.0, All-keep_of_All P p xs h.1)
    | inr e ↦ rw e (All-keep_of_All P p xs h.1)
  ]

module _ {ℓ} {A : Type ℓ} where
  pub set-append :
      (xs : List A) (i : ℕ) (y : A) (ys : List A) (v : A)
      → i ≡ length xs
      → set (xs ++ y ∷ ys) i v ≡ xs ++ v ∷ ys
  set-append [] zero y ys v e = refl
  set-append [] (suc i) y ys v e = absurd (omega arith)
  set-append (x ∷ xs) zero y ys v e = absurd (omega arith)
  set-append (x ∷ xs) (suc i) y ys v e = ap (◌∷◌ x) (set-append xs i y ys v (omega arith))

  pub get_elem?-lt : (xs : List A) (i : ℕ) → i < length xs → (a : A) × (get_elem? xs i ≡ some a)
  get_elem?-lt [] i h = absurd (omega arith)
  get_elem?-lt (x ∷ xs) zero h = (x, refl)
  get_elem?-lt (x ∷ xs) (suc i) h = get_elem?-lt xs i (omega arith)

  pub length-set : (xs : List A) (i : ℕ) (v : A) → length (set xs i v) ≡ length xs
  length-set [] i v = refl
  length-set (x ∷ xs) zero v = refl
  length-set (x ∷ xs) (suc i) v = ap suc (length-set xs i v)

  pub length-drop_at :
      (xs : List A) (i : ℕ) (a : A)
      → get_elem? xs i ≡ some a
      → suc (length (drop_at xs i)) ≡ length xs
  length-drop_at [] i a e = cc
  length-drop_at (x ∷ xs) zero a e = refl
  length-drop_at (x ∷ xs) (suc i) a e = ap suc (length-drop_at xs i a e)

  pub All-get_elem? {κ} :
      (P : A → Type κ) (xs : List A) (i : ℕ) (a : A) → get_elem? xs i ≡ some a → All P xs → P a
  All-get_elem? P [] i a e h = cc
  All-get_elem? P (x ∷ xs) zero a e h = let p : x ≡ a = cc in subst P p h.0
  All-get_elem? P (x ∷ xs) (suc i) a e h = All-get_elem? P xs i a e h.1

  pub All-set {κ} :
      (P : A → Type κ) (xs : List A) (i : ℕ) (a : A) → P a → All P xs → All P (set xs i a)
  All-set P [] i a p h = tt
  All-set P (x ∷ xs) zero a p h = (p, h.1)
  All-set P (x ∷ xs) (suc i) a p h = (h.0, All-set P xs i a p h.1)

  pub All-drop_at {κ} : (P : A → Type κ) (xs : List A) (i : ℕ) → All P xs → All P (drop_at xs i)
  All-drop_at P [] i h = tt
  All-drop_at P (x ∷ xs) zero h = h.1
  All-drop_at P (x ∷ xs) (suc i) h = (h.0, All-drop_at P xs i h.1)

  pub length-map {κ} : {B : Type κ} (f : A → B) (xs : List A) → length (map f xs) ≡ length xs
  length-map f [] = refl
  length-map f (x ∷ xs) = ap suc (length-map f xs)

  pub replicate-append :
      (n : ℕ) (a : A) (xs : List A) → replicate n a ++ a ∷ xs ≡ a ∷ replicate n a ++ xs
  replicate-append zero a xs = refl
  replicate-append (suc n) a xs = ap (◌∷◌ a) (replicate-append n a xs)

module _ {A : Type 0} where
  -- Membership by recursion: an element together with its place.
  abbrev pub In : A → List A → Type 0
  In a [] = ⊥
  In a (x ∷ xs) = (a ≡ x) ⊎ In a xs

  pub All-at {κ} : (P : A → Type κ) (a : A) (xs : List A) → All P xs → In a xs → P a
  All-at P a [] h m = absurd m
  All-at P a (x ∷ xs) h (inl e) = rw e h.0
  All-at P a (x ∷ xs) h (inr m) = All-at P a xs h.1 m

  pub In-All : (xs : List A) (P : A → Type 0) → ((a : A) → In a xs → P a) → All P xs
  In-All [] P h = tt
  In-All (x ∷ xs) P h = (h x (inl refl), In-All xs P (λ a m. h a (inr m)))

  pub In-append_left : (a : A) (xs ys : List A) → In a xs → In a (xs ++ ys)
  In-append_left a [] ys m = absurd m
  In-append_left a (x ∷ xs) ys (inl e) = inl e
  In-append_left a (x ∷ xs) ys (inr m) = inr (In-append_left a xs ys m)

  pub In-append_right : (a : A) (xs ys : List A) → In a ys → In a (xs ++ ys)
  In-append_right a [] ys m = m
  In-append_right a (x ∷ xs) ys m = inr (In-append_right a xs ys m)

  pub In-keep : (a : A) (p : A → Bool) (xs : List A) → p a ≡ true → In a xs → In a (keep p xs)
  In-keep a p [] h m = m
  In-keep a p (x ∷ xs) h (inl e) = let q : p x ≡ true = rw (← e) h in rw q (inl e)
  In-keep a p (x ∷ xs) h (inr m) = elim (Bool-cases (p x)) [
    | inl e ↦ rw e (inr (In-keep a p xs h m))
    | inr e ↦ rw e (In-keep a p xs h m)
  ]

module _ {A B : Type 0} where
  pub In-map : (f : A → B) (a : A) (xs : List A) → In a xs → In (f a) (map f xs)
  In-map f a [] m = absurd m
  In-map f a (x ∷ xs) (inl e) = inl (ap f e)
  In-map f a (x ∷ xs) (inr m) = inr (In-map f a xs m)
