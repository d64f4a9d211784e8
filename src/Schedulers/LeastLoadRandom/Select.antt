-- ===== src/Schedulers/LeastLoadRandom/Select.antt =====
-- `LeastLoadRandomScheduler.node_select` draws among the best nodes.
use linux_net_x.Base.{
  ℕ, ◌≤◌, ◌<◌, String, ◌≡◌, refl, sym, subst, ◌⊎◌, inl, inr, Bool, true, List, some, [], ◌∷◌, arith,
  ◌==◌, keep, All, In, length, get_elem?, get_elem?-lt, All-get_elem?, All-keep, All-keep_of_All,
  All-map, All-and, All-of_keep, In-All,
}
use linux_net_x.Nodes.{NodeInfo, ok, raise, worker_unavailable, has_room, room}
use linux_net_x.Schedulers.LeastLoadRandom.{
  min_of, max_of, phase_one, phase_two, choice, select_from, node_select,
}

module _ {A : Type 0} (f : A → ℕ) where
  min_of-le : (x : A) (xs : List A) → All (λ y. min_of f x xs ≤ f y) (x ∷ xs)
  unfolding min_of
  min_of-le x [] = (omega arith, tt)
  min_of-le x (y ∷ ys) = (
    ground arith,
    All-map (λ z. min_of f y ys ≤ f z) _ (y ∷ ys) (λ z h. ground arith) (min_of-le y ys),
  )

  pub le-max_of : (x : A) (xs : List A) → All (λ y. f y ≤ max_of f x xs) (x ∷ xs)
  unfolding max_of
  le-max_of x [] = (omega arith, tt)
  le-max_of x (y ∷ ys) = (
    ground arith,
    All-map (λ z. f z ≤ max_of f y ys) _ (y ∷ ys) (λ z h. ground arith) (le-max_of y ys),
  )

  -- The minimum and the maximum are reached, so filtering by them leaves something.
  keep_min-pos : (x : A) (xs : List A) → 0 < length (keep (λ y. f y == min_of f x xs) (x ∷ xs))
  unfolding min_of
  keep_min-pos x [] = ground arith
  keep_min-pos x (y ∷ ys) = ground (arith, keep_min-pos y ys)

  keep_max-pos : (x : A) (xs : List A) → 0 < length (keep (λ y. f y == max_of f x xs) (x ∷ xs))
  unfolding max_of
  keep_max-pos x [] = ground arith
  keep_max-pos x (y ∷ ys) = ground (arith, keep_max-pos y ys)

-- A draw: below the bound that it is given, if that is not 0.
abbrev pub IsDraw : (ℕ → ℕ → ℕ) → Type 0
IsDraw draw = (k n : ℕ) → 0 < n → draw k n < n

-- Fewest bound hosts, and the most room among those.
abbrev pub IsLeastLoaded : List NodeInfo → NodeInfo → Type 0
IsLeastLoaded available n =
    In n available
    × All (λ m. n.count ≤ m.count) available
    × All (λ m. m.count ≡ n.count → room m ≤ room n) available

phase_two-IsLeastLoaded :
    (n : NodeInfo) (rest candidates : List NodeInfo)
    → phase_one n rest ≡ candidates
    → 0 < length candidates
    → All (IsLeastLoaded (n ∷ rest)) (phase_two candidates) × (0 < length (phase_two candidates))
unfolding phase_one phase_two
phase_two-IsLeastLoaded n rest [] e pos = absurd (omega arith)
phase_two-IsLeastLoaded n rest (c ∷ cs) e pos = (
  All-map _ (IsLeastLoaded all) (keep is_max (c ∷ cs)) best (
      All-and _ _ (keep is_max (c ∷ cs)) (All-keep is_max (c ∷ cs))
        (All-keep_of_All _ is_max (c ∷ cs) first)),
  keep_max-pos room c cs,
)
  where
    all : List NodeInfo
    all = n ∷ rest

    least : ℕ
    least = min_of (λ x. x.count) n rest

    is_min : NodeInfo → Bool
    is_min m = m.count == least

    is_max : NodeInfo → Bool
    is_max m = room m == max_of room c cs

    first : All (λ m. In m all × (is_min m ≡ true)) (c ∷ cs)
    first = subst (All (λ m. In m all × (is_min m ≡ true))) e (
        All-and _ _ (keep is_min all)
          (All-keep_of_All _ is_min all (In-All all (λ a. In a all) (λ a m. m)))
          (All-keep is_min all))

    rooms : All (λ m. is_min m ≡ true → room m ≤ max_of room c cs) all
    rooms =
        All-of_keep _ is_min all
          (subst (All (λ m. room m ≤ max_of room c cs)) (sym e) (le-max_of room c cs))

    best : (m : NodeInfo) → (is_max m ≡ true) × (In m all × (is_min m ≡ true)) → IsLeastLoaded all m
    best m (top, (listed, low)) = (
      listed,
      All-map (λ x. least ≤ x.count) _ all (λ x h. ground arith) (min_of-le (λ x. x.count) n rest),
      All-map _ _ all (λ x h q. ground (arith, h (ground arith))) rooms,
    )

choice-hit :
    (nodes : List NodeInfo) (i : ℕ) (n : NodeInfo)
    → get_elem? nodes i ≡ some n
    → choice i nodes ≡ ok n
unfolding choice
choice-hit nodes i n hit = rw (hit, choice)

-- Whatever is drawn, the scheduler raises if no node has room, and else takes a node with room that
-- has the fewest bound hosts, and among those the most room.
pub node_select-IsLeastLoaded :
    (draw : ℕ → ℕ → ℕ) (nodes : List NodeInfo) (host : String)
    → IsDraw draw
    → ((node_select draw nodes host ≡ raise worker_unavailable) × (keep has_room nodes ≡ []))
      ⊎ ((n : NodeInfo) × (node_select draw nodes host ≡ ok n)
          × IsLeastLoaded (keep has_room nodes) n)
unfolding node_select
node_select-IsLeastLoaded draw nodes host drawn = drawn_from (keep has_room nodes)
  where
    drawn_from :
        (available : List NodeInfo)
        → ((select_from draw available ≡ raise worker_unavailable) × (available ≡ []))
          ⊎ ((n : NodeInfo) × (select_from draw available ≡ ok n) × IsLeastLoaded available n)
    drawn_from [] = inl (refl, refl)
    drawn_from (a ∷ rest) =
        let candidates = phase_two (phase_one a rest) in
        let (best, some_best) =
          phase_two-IsLeastLoaded a rest (phase_one a rest) refl
            (keep_min-pos (λ x. x.count) a rest) in
        let i : ℕ = draw 0 (length candidates) in
        let (n, hit) = get_elem?-lt candidates i (drawn 0 (length candidates) some_best) in
        inr (
          n,
          choice-hit candidates i n hit,
          All-get_elem? (IsLeastLoaded (a ∷ rest)) candidates i n hit best,
        )
