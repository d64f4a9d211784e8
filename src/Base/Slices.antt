-- ===== src/Base/Slices.antt =====
-- Parts of a list, by native numbers.
use Prim.Native.Nat.{ℕ, zero, suc, ◌-◌}
use mathlib.Core.Path.{◌≡◌, refl, ap, ◌∙◌}
use mathlib.Core.List.{List, [], ◌∷◌, ◌++◌}
use mathlib.Core.List.{append_assoc}
use native.Mathlib.Omega.{arith}
use linux_net_x.Base.Lists.{length}

module _ {ℓ} {A : Type ℓ} where
  abbrev pub take : ℕ → List A → List A
  take zero xs = []
  take (suc n) [] = []
  take (suc n) (x ∷ xs) = x ∷ take n xs

  abbrev pub drop : ℕ → List A → List A
  drop zero xs = xs
  drop (suc n) [] = []
  drop (suc n) (x ∷ xs) = drop n xs

  pub take-append-drop : (n : ℕ) (xs : List A) → take n xs ++ drop n xs ≡ xs
  take-append-drop zero xs = refl
  take-append-drop (suc n) [] = refl
  take-append-drop (suc n) (x ∷ xs) = ap (◌∷◌ x) (take-append-drop n xs)

  pub length-drop : (n : ℕ) (xs : List A) → length (drop n xs) ≡ length xs - n
  length-drop zero xs = omega arith
  length-drop (suc n) [] = omega arith
  length-drop (suc n) (x ∷ xs) = omega (arith, length-drop n xs)

  pub drop-append : (xs ys : List A) → drop (length xs) (xs ++ ys) ≡ ys
  drop-append [] ys = refl
  drop-append (x ∷ xs) ys = drop-append xs ys

  -- `p` begins `xs`.
  abbrev pub IsPrefix : List A → List A → Type ℓ
  IsPrefix p xs = (rest : List A) × (p ++ rest ≡ xs)

  pub take-IsPrefix : (n : ℕ) (xs : List A) → IsPrefix (take n xs) xs
  take-IsPrefix n xs = (drop n xs, take-append-drop n xs)

  pub append-IsPrefix : (p q xs : List A) → IsPrefix q xs → IsPrefix (p ++ q) (p ++ xs)
  append-IsPrefix p q xs (rest, e) = (rest, append_assoc p q rest ∙ ap (λ l. p ++ l) e)

  pub IsPrefix-trans : (p q xs : List A) → IsPrefix p q → IsPrefix q xs → IsPrefix p xs
  IsPrefix-trans p q xs (a, e) (b, f) = (a ++ b, rw (← append_assoc) (ap (λ l. l ++ b) e ∙ f))
