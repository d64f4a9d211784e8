-- ===== src/Schedulers/LoadWeightedRandom/Batch.antt =====
-- The rounds of the load-weighted batch selection: what is left, and what a draw finds.
use linux_net_x.Base.{
  ℕ, ◌+◌, ◌≤◌, String, ◌≡◌, refl, sym, ap, ◌∙◌, inl, inr, Bool, true, false, some, List, [], ◌∷◌,
  keep, sum_of, length, In, All, All-at, arith, str_eq, eq_iff, if◌then◌else◌, Bool-cases,
}
use linux_net_x.Nodes.{NodeInfo, has_room, room, room_of}
use linux_net_x.Schedulers.LoadWeightedRandom.{Numbers, pick, is_left, take_one, noisy_weights}

-- No two nodes have one name.
abbrev pub Distinct : List NodeInfo → Type 0
Distinct [] = Unit
Distinct (n ∷ nodes) = All (λ m. str_eq m.hostname n.hostname ≡ false) nodes × Distinct nodes

-- The entries of the nodes, with more of their capacity used.
abbrev pub Raised : List NodeInfo → List NodeInfo → Type 0
Raised [] [] = Unit
Raised [] (m ∷ ms) = ⊥
Raised (n ∷ ns) [] = ⊥
Raised (n ∷ ns) (m ∷ ms) =
    (m.hostname ≡ n.hostname) × (m.capacity ≡ n.capacity) × (n.count ≤ m.count) × Raised ns ms

module _ (F : Numbers) where
  pub Raised-refl : (nodes : List NodeInfo) → Raised nodes nodes
  Raised-refl [] = tt
  Raised-refl (n ∷ nodes) = (refl, refl, omega arith, Raised-refl nodes)

  pub Raised-take_one :
      (h : String) (ns ms : List NodeInfo) → Raised ns ms → Raised ns (take_one F h ms)
  unfolding take_one
  Raised-take_one h [] [] r = tt
  Raised-take_one h [] (m ∷ ms) r = absurd r
  Raised-take_one h (n ∷ ns) [] r = absurd r
  Raised-take_one h (n ∷ ns) (m ∷ ms) (same, cap, le, r) = elim (Bool-cases (str_eq m.hostname h)) [
    | inl e ↦ rw e (same, cap, omega (arith, le), r)
    | inr e ↦ rw e (same, cap, le, Raised-take_one h ns ms r)
  ]

  pub sum_of-take_one :
      (h : String) (ms : List NodeInfo)
      → is_left F h ms ≡ true
      → sum_of room (take_one F h ms) + 1 ≡ sum_of room ms
  unfolding take_one is_left
  sum_of-take_one h [] e = cc
  sum_of-take_one h (m ∷ ms) e = elim (Bool-cases (str_eq m.hostname h)) [
    | inl q ↦ rw q (ground (arith, rw q at e))
    | inr q ↦ rw q (omega (arith, sum_of-take_one h ms (rw q at e)))
  ]

  pub room_of-take_one :
      (h k : String) (ms : List NodeInfo)
      → is_left F h ms ≡ true
      → (if str_eq h k then 1 else 0) + room_of k (take_one F h ms) ≡ room_of k ms
  unfolding take_one is_left
  room_of-take_one h k [] e = cc
  room_of-take_one h k (m ∷ ms) e = elim (Bool-cases (str_eq m.hostname h)) [
    | inl q ↦ rw q (ground (arith, rw q at e, eq_iff m.hostname h))
    | inr q ↦ rw q (omega (arith, room_of-take_one h k ms (rw q at e)))
  ]

  -- A node that is left has room.
  pub is_left-has_room :
      (n : NodeInfo) (ns ms : List NodeInfo)
      → Distinct ns
      → Raised ns ms
      → In n ns
      → is_left F n.hostname ms ≡ true
      → has_room n ≡ true
  unfolding is_left
  is_left-has_room n [] ms d r i e = absurd i
  is_left-has_room n (n0 ∷ ns) [] d r i e = absurd r
  is_left-has_room n (n0 ∷ ns) (m ∷ ms) d (same, cap, le, r) (inl q) e =
      let f : str_eq m.hostname n.hostname ≡ true =
        (eq_iff m.hostname n.hostname).1 (same ∙ ap (λ (x : NodeInfo). x.hostname) (sym q)) in
      let c : m.capacity ≡ n.capacity = cap ∙ ap (λ (x : NodeInfo). x.capacity) (sym q) in
      let u : n0.count ≡ n.count = ap (λ (x : NodeInfo). x.count) (sym q) in
      ground (arith, le, c, u, rw f at e)
  is_left-has_room n (n0 ∷ ns) (m ∷ ms) d (same, cap, le, r) (inr i) e =
      let f : str_eq n.hostname n0.hostname ≡ false =
        All-at (λ x. str_eq x.hostname n0.hostname ≡ false) n ns d.0 i in
      let g : str_eq m.hostname n.hostname ≡ false =
        ground (arith, eq_iff m.hostname n.hostname, eq_iff n.hostname n0.hostname, same) in
      is_left-has_room n ns ms d.1 r i (rw g at e)

  not_left_after :
      (n m : NodeInfo) (xs ms : List NodeInfo)
      → m.hostname ≡ n.hostname
      → All (λ x. str_eq x.hostname n.hostname ≡ false) xs
      → All (λ x. is_left F x.hostname (m ∷ ms) ≡ false) xs
      → All (λ x. is_left F x.hostname ms ≡ false) xs
  unfolding is_left
  not_left_after n m [] ms same d a = tt
  not_left_after n m (x ∷ xs) ms same d a =
      let g : str_eq m.hostname x.hostname ≡ false =
        ground (arith, eq_iff m.hostname x.hostname, eq_iff x.hostname n.hostname, same, d.0) in
      (rw g at a.0, not_left_after n m xs ms same d.1 a.1)

  -- Where no node is left, no room is.
  pub nothing_left :
      (ns ms : List NodeInfo)
      → Distinct ns
      → Raised ns ms
      → All (λ n. is_left F n.hostname ms ≡ false) ns
      → sum_of room ms ≡ 0
  unfolding is_left
  nothing_left [] [] d r a = refl
  nothing_left [] (m ∷ ms) d r a = absurd r
  nothing_left (n ∷ ns) [] d r a = absurd r
  nothing_left (n ∷ ns) (m ∷ ms) d (same, cap, le, r) a =
      let f : str_eq m.hostname n.hostname ≡ true = (eq_iff m.hostname n.hostname).1 same in
      let full : has_room m ≡ false = rw f at a.0 in
      ground (arith, full, nothing_left ns ms d.1 r (not_left_after n m ns ms same d.0 a.1))

  -- The accumulated weights, as the loop adds them up.
  abbrev pub sum_up : F.Number → List F.Number → F.Number
  sum_up acc [] = acc
  sum_up acc (w ∷ weights) = sum_up (F.add acc w) weights

  pub pick_finds :
      (r acc : F.Number) (n : NodeInfo) (nodes : List NodeInfo) (w : F.Number)
      (weights : List F.Number)
      → length nodes ≡ length weights
      → F.le r (sum_up acc (w ∷ weights)) ≡ true
      → (m : NodeInfo) × (pick F r acc (n ∷ nodes) (w ∷ weights) ≡ some m)
  unfolding pick
  pick_finds r acc n [] w [] e h = (n, rw h refl)
  pick_finds r acc n [] w (v ∷ weights) e h = absurd (omega (arith, e))
  pick_finds r acc n (m ∷ nodes) w [] e h = absurd (omega (arith, e))
  pick_finds r acc n (m ∷ nodes) w (v ∷ weights) e h = elim (Bool-cases (F.le r (F.add acc w))) [
    | inl q ↦ (n, rw q refl)
    | inr q ↦
        let (x, f) = pick_finds r (F.add acc w) m nodes v weights (omega (arith, e)) h in
        (x, rw q f)
  ]

  pub length-noisy_weights :
      (k i : ℕ) (remaining candidates : List NodeInfo)
      → length candidates ≡ length (noisy_weights F k i remaining candidates)
  unfolding noisy_weights
  length-noisy_weights k i remaining [] = refl
  length-noisy_weights k i remaining (n ∷ candidates) =
      omega (arith, length-noisy_weights k (i + 1) remaining candidates)

  pub In-of_keep :
      (a : NodeInfo) (p : NodeInfo → Bool) (xs : List NodeInfo)
      → In a (keep p xs)
      → In a xs × (p a ≡ true)
  In-of_keep a p [] i = absurd i
  In-of_keep a p (x ∷ xs) i = elim (Bool-cases (p x)) [
    | inl e ↦ elim (rw e at i) as (λ _. In a (x ∷ xs) × (p a ≡ true)) [
      | inl q ↦ (inl q, ap p q ∙ e)
      | inr j ↦ let (m, f) = In-of_keep a p xs j in (inr m, f)
    ]
    | inr e ↦ let (m, f) = In-of_keep a p xs (rw e at i) in (inr m, f)
  ]

  pub keep-none :
      (p : NodeInfo → Bool) (xs : List NodeInfo) → keep p xs ≡ [] → All (λ x. p x ≡ false) xs
  keep-none p [] e = tt
  keep-none p (x ∷ xs) e = elim (Bool-cases (p x)) [
    | inl q ↦ cc (rw q at e)
    | inr q ↦ (q, keep-none p xs (rw q at e))
  ]
