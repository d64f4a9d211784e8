-- ===== src/Base/Text.antt =====
-- The order of texts is transitive.
use Prim.Native.Nat.{Ordering, compare as compare_ℕ}
use Prim.Native.Char.{Char, code}
use Prim.Native.String.{String, compare, then}
use Prim.Native.String.compare.{nil-nil, cons-nil, cons-cons}
use Prim.Native.String.compare.{nil-cons}
use mathlib.Core.Path.{◌≡◌}
use mathlib.Core.Bool.{true}
use native.Mathlib.Omega.{arith}
use linux_net_x.Base.Tests.{str_lt}

at_nil-nil : compare String.[] String.[] ≡ Ordering.eq
at_nil-nil = λ i. nil-nil i

at_nil-cons : (d : Char) (t : String) → compare String.[] (String.◌∷◌ d t) ≡ Ordering.lt
at_nil-cons d t = λ i. nil-cons d t i

at_cons-nil : (c : Char) (s : String) → compare (String.◌∷◌ c s) String.[] ≡ Ordering.gt
at_cons-nil c s = λ i. cons-nil c s i

at_cons-cons :
    (c d : Char) (s t : String)
    → compare (String.◌∷◌ c s) (String.◌∷◌ d t) ≡ then (compare_ℕ (code c) (code d)) (compare s t)
at_cons-cons c d s t = λ i. cons-cons c d s t i

compare_trans :
    (s t u : String)
    → compare s t ≡ Ordering.lt
    → compare t u ≡ Ordering.lt
    → compare s u ≡ Ordering.lt
compare_trans String.[] String.[] u h k = cc
compare_trans s (String.◌∷◌ d t) String.[] h k = cc (at_cons-nil d t)
compare_trans String.[] (String.◌∷◌ d t) (String.◌∷◌ e u) h k = at_nil-cons e u
compare_trans (String.◌∷◌ c s) String.[] u h k = cc (at_cons-nil c s)
compare_trans (String.◌∷◌ c s) (String.◌∷◌ d t) (String.◌∷◌ e u) h k =
    ground
      (arith, at_cons-cons c d s t, at_cons-cons d e t u, at_cons-cons c e s u, compare_trans s t u)

pub str_lt_trans : (s t u : String) → str_lt s t ≡ true → str_lt t u ≡ true → str_lt s u ≡ true
str_lt_trans s t u h k = ground (arith, compare_trans s t u)
