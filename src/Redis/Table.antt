-- ===== src/Redis/Table.antt =====
-- A hash as an association list: the assumptions of `Hash` can be met.
use linux_net_x.Base.{
  String, ◌≡◌, ◌≢◌, ◌⊎◌, ap, Bool, true, false, Option, none, some, List, [], ◌∷◌, In, str_eq,
  eq_iff, if◌then◌else◌, arith, inl, inr, Bool-cases,
}
use linux_net_x.Redis.{Hash}

module _ {V : Type 0} where
  unfoldable pub lookup : List (String × V) → String → Option V
  lookup [] k = none
  lookup ((j, v) ∷ t) k = if str_eq j k then some v else lookup t k

  unfoldable pub without : List (String × V) → String → List (String × V)
  without [] k = []
  without ((j, v) ∷ t) k = let rest = without t k in if str_eq j k then rest else (j, v) ∷ rest

  -- The first entry of each key.
  unfoldable pub scan : List (String × V) → List (String × V)
  unfolding without
  scan [] = []
  scan ((j, v) ∷ t) = (j, v) ∷ without (scan t) j

  unfoldable pub set_absent : List (String × V) → String → V → List (String × V) × Bool
  unfolding lookup
  set_absent t k v = elim (lookup t k) [ none ↦ ((k, v) ∷ without t k, true) | some w ↦ (t, false) ]

  pub lookup-without :
      (t : List (String × V)) (k j : String)
      → lookup (without t k) j ≡ (if str_eq k j then none else lookup t j)
  unfolding lookup without
  lookup-without [] k j = ground arith
  lookup-without ((i, v) ∷ t) k j =
      ground (arith, lookup-without t k j, eq_iff i k, eq_iff i j, eq_iff k j)

  pub lookup-put :
      (t : List (String × V)) (k j : String) (v : V)
      → lookup ((k, v) ∷ without t k) j ≡ (if str_eq k j then some v else lookup t j)
  unfolding lookup
  lookup-put t k j v = ground (arith, lookup-without t k j)

  In-head : {x y : String × V} (t : List (String × V)) → In x (y ∷ t) → (x ≡ y) ⊎ In x t
  In-head t m = m

  In-without :
      (t : List (String × V)) (i k : String) (v : V)
      → In (k, v) (without t i)
      → In (k, v) t × (i ≢ k)
  unfolding without
  In-without [] i k v m = absurd m
  In-without ((j, w) ∷ t) i k v m = elim (Bool-cases (str_eq j i)) [
    | inl e ↦ let (m', ne) = In-without t i k v (rw e at m) in (inr m', ne)
    | inr e ↦ elim (In-head (without t i) (rw e at m)) [
      | inl p ↦ (inl p, λ q. ground (arith, eq_iff j i, ap (λ (x : String × V). x.0) p))
      | inr m' ↦ let (m'', ne) = In-without t i k v m' in (inr m'', ne)
    ]
  ]

  pub lookup_of_scan :
      (t : List (String × V)) (k : String) (v : V) → In (k, v) (scan t) → lookup t k ≡ some v
  unfolding lookup scan
  lookup_of_scan [] k v m = absurd m
  lookup_of_scan ((j, w) ∷ t) k v (inl p) =
      ground (arith, eq_iff j k, ap (λ (x : String × V). x.0) p, ap (λ (x : String × V). x.1) p)
  lookup_of_scan ((j, w) ∷ t) k v (inr m) =
      let (m', ne) = In-without (scan t) j k v m in
      ground (arith, eq_iff j k, lookup_of_scan t k v m')

  In-without_ne :
      (t : List (String × V)) (i k : String) (v : V) → i ≢ k → In (k, v) t → In (k, v) (without t i)
  unfolding without
  In-without_ne [] i k v ne m = m
  In-without_ne ((j, w) ∷ t) i k v ne (inl p) = elim (Bool-cases (str_eq j i)) [
    | inl e ↦ absurd (ne (ground (arith, eq_iff j i, ap (λ (x : String × V). x.0) p)))
    | inr e ↦ rw e (inl p)
  ]
  In-without_ne ((j, w) ∷ t) i k v ne (inr m) = elim (Bool-cases (str_eq j i)) [
    | inl e ↦ rw e (In-without_ne t i k v ne m)
    | inr e ↦ rw e (inr (In-without_ne t i k v ne m))
  ]

  pub scan_of_lookup :
      (t : List (String × V)) (k : String) (v : V) → lookup t k ≡ some v → In (k, v) (scan t)
  unfolding lookup scan
  scan_of_lookup [] k v e = cc
  scan_of_lookup ((j, w) ∷ t) k v e = elim (Bool-cases (str_eq j k)) [
    | inl q ↦ inl (ground (arith, eq_iff j k))
    | inr q ↦ inr (
        In-without_ne (scan t) j k v (λ p. ground (arith, eq_iff j k))
          (scan_of_lookup t k v (rw q at e)))
  ]

  pub set_absent_taken :
      (t : List (String × V)) (k : String) (v w : V)
      → lookup t k ≡ some w
      → set_absent t k v ≡ (t, false)
  unfolding set_absent
  set_absent_taken t k v w e = rw (e, set_absent)

  pub set_absent_free :
      (t : List (String × V)) (k : String) (v : V)
      → lookup t k ≡ none
      → set_absent t k v ≡ ((k, v) ∷ without t k, true)
  unfolding set_absent
  set_absent_free t k v e = rw (e, set_absent)

  -- The association lists are a hash.
  abbrev pub table : Hash V
  table = record {
    Table = List (String × V);
    hget = lookup;
    hset = λ t k v. (k, v) ∷ without t k;
    hdel = without;
    hsetnx = set_absent;
    hscan = scan;
    hget-hset = lookup-put;
    hget-hdel = lookup-without;
    hsetnx_taken = set_absent_taken;
    hsetnx_free = set_absent_free;
    hget_of_hscan = lookup_of_scan;
    hscan_of_hget = scan_of_lookup;
  }
