-- ===== src/Schedulers/LoadWeightedRandom/Select.antt =====
-- What the load-weighted random scheduler selects for one host.
use linux_net_x.Base.{
  ℕ, zero, suc, ◌<◌, String, ◌≡◌, refl, ◌⊎◌, inl, inr, Option, none, some, List, [], ◌∷◌, keep,
  length, get_elem?, get_elem?-lt, In, arith, Bool-cases,
}
use linux_net_x.Nodes.{NodeInfo, ok, raise, worker_unavailable, has_room}
use linux_net_x.Schedulers.LoadWeightedRandom.{
  Numbers, pick, perturbed_weights, last_of, pick_or_last, choose, select_from, node_select,
}

module _ (F : Numbers) where
  pub pick-In :
      (r acc : F.Number) (nodes : List NodeInfo) (weights : List F.Number) (n : NodeInfo)
      → pick F r acc nodes weights ≡ some n
      → In n nodes
  unfolding pick
  pick-In r acc [] weights n e = cc
  pick-In r acc (m ∷ nodes) [] n e = cc
  pick-In r acc (m ∷ nodes) (w ∷ weights) n e = elim (Bool-cases (F.le r (F.add acc w))) [
    | inl q ↦ let f : some m ≡ some n = rw q at e in let g : n ≡ m = cc in inl g
    | inr q ↦ inr (pick-In r (F.add acc w) nodes weights n (rw q at e))
  ]

  last_of-In : (n : NodeInfo) (nodes : List NodeInfo) → In (last_of F n nodes) (n ∷ nodes)
  unfolding last_of
  last_of-In n [] = inl refl
  last_of-In n (m ∷ nodes) = inr (last_of-In m nodes)

  get_elem?-In :
      (nodes : List NodeInfo) (i : ℕ) (n : NodeInfo) → get_elem? nodes i ≡ some n → In n nodes
  get_elem?-In [] i n e = cc
  get_elem?-In (m ∷ nodes) zero n e = let g : n ≡ m = cc in inl g
  get_elem?-In (m ∷ nodes) (suc i) n e = inr (get_elem?-In nodes i n e)

  pick_or_last-In :
      (o : Option NodeInfo) (n : NodeInfo) (nodes : List NodeInfo)
      → ((m : NodeInfo) → o ≡ some m → In m (n ∷ nodes))
      → In (pick_or_last F o n nodes) (n ∷ nodes)
  unfolding pick_or_last
  pick_or_last-In none n nodes h = last_of-In n nodes
  pick_or_last-In (some m) n nodes h = h m refl

  module _ (drawn : (size : ℕ) → 0 < size → F.index size < size) where
    select_from-In :
        (host : String) (n : NodeInfo) (available : List NodeInfo)
        → (m : NodeInfo) × (select_from F host (n ∷ available) ≡ ok m) × In m (n ∷ available)
    unfolding select_from choose
    select_from-In host n available =
        let weights = perturbed_weights F host (length (n ∷ available)) 0 (n ∷ available) in
        elim (Bool-cases (F.le (F.total_of weights) F.zero)) [
          | inl e ↦
              let (m, f) =
                get_elem?-lt (n ∷ available) (F.index (length (n ∷ available)))
                  (drawn _ (omega arith)) in
              (m, rw e (rw (f, choose) refl), get_elem?-In (n ∷ available) _ m f)
          | inr e ↦ (
            _,
            rw e refl,
            pick_or_last-In
                (pick F (F.uniform 0 (F.total_of weights)) F.zero (n ∷ available) weights) n
                available (λ m q. pick-In _ _ (n ∷ available) weights m q),
          )
        ]

    -- Whatever the weights and the numbers drawn, a node with room is selected, or the selection
    -- raises if there is none; the index of a choice is below the number of nodes.
    pub node_select-In :
        (nodes : List NodeInfo) (host : String)
        → ((node_select F nodes host ≡ raise worker_unavailable) × (keep has_room nodes ≡ []))
          ⊎ ((n : NodeInfo) × (node_select F nodes host ≡ ok n) × In n (keep has_room nodes))
    unfolding node_select select_from
    node_select-In nodes host = selected (keep has_room nodes)
      where
        selected :
            (available : List NodeInfo)
            → ((select_from F host available ≡ raise worker_unavailable) × (available ≡ []))
              ⊎ ((n : NodeInfo) × (select_from F host available ≡ ok n) × In n available)
        selected [] = inl (refl, refl)
        selected (n ∷ available) = inr (select_from-In host n available)
