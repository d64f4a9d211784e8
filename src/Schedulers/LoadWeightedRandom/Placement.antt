-- ===== src/Schedulers/LoadWeightedRandom/Placement.antt =====
-- The batch selection of the load-weighted random scheduler places all hosts.
use linux_net_x.Base.{
  ℕ, ◌+◌, ◌≤◌, String, ◌≡◌, refl, sym, ap, subst, ◌∙◌, ◌⊎◌, inl, inr, true, false, some, List, [],
  ◌∷◌, any_of, keep, sum_of, length, In, All, arith, str_eq, sum_of-keep_le,
}
use linux_net_x.Nodes.{
  NodeInfo, ok, has_room, room, assigned, room_of, short_of_capacity, enough_room, IsAssignment,
}
use linux_net_x.Schedulers.LoadWeightedRandom.{
  Numbers, remaining_of, is_left, take_one, noisy_weights, draw_one, use_one, place_one, place_each,
  batch_node_select,
}
use linux_net_x.Schedulers.LoadWeightedRandom.Select.{pick-In}
use linux_net_x.Schedulers.LoadWeightedRandom.Batch.{
  Distinct, Raised, Raised-refl, Raised-take_one, sum_of-take_one, room_of-take_one,
  is_left-has_room, nothing_left, sum_up, pick_finds, length-noisy_weights, In-of_keep, keep-none,
}

module _ (F : Numbers) where
  module _ (within : (k : ℕ) (t : F.Number) → F.le F.zero t ≡ true → F.le (F.uniform k t) t ≡ true)
      (positive : (k : ℕ) (remaining candidates : List NodeInfo)
        → F.le F.zero (F.total_of (noisy_weights F k 0 remaining candidates)) ≡ true)
      (exact : (weights : List F.Number) → F.total_of weights ≡ sum_up F F.zero weights) where
    draw_one-finds :
        (k : ℕ) (remaining : List NodeInfo) (n : NodeInfo) (candidates : List NodeInfo)
        → (m : NodeInfo) × (draw_one F k remaining (n ∷ candidates) ≡ some m)
    unfolding draw_one noisy_weights
    draw_one-finds k remaining n candidates =
        let weights = noisy_weights F k 0 remaining (n ∷ candidates) in
        pick_finds F (F.uniform k (F.total_of weights)) F.zero n candidates _ _
          (length-noisy_weights F k 1 remaining candidates)
          (ap (F.le (F.uniform k (F.total_of weights))) (sym (exact weights))
            ∙ within k (F.total_of weights) (positive k remaining (n ∷ candidates)))

    draw_one-In :
        (k : ℕ) (remaining candidates : List NodeInfo) (m : NodeInfo)
        → draw_one F k remaining candidates ≡ some m
        → In m candidates
    unfolding draw_one
    draw_one-In k remaining candidates m e = pick-In F _ _ candidates _ m e

    abbrev candidates_of : List NodeInfo → List NodeInfo → List NodeInfo
    candidates_of nodes remaining = keep (λ n. is_left F n.hostname remaining) nodes

    -- A round with a candidate selects one.
    placed_of :
        (k : ℕ) (nodes remaining candidates : List NodeInfo)
        → candidates_of nodes remaining ≡ candidates
        → (candidates ≡ [])
          ⊎ ((n : NodeInfo) × (place_one F k remaining candidates
                ≡ ok (n, take_one F n.hostname remaining))
              × In n nodes
              × (is_left F n.hostname remaining ≡ true))
    unfolding place_one use_one
    placed_of k nodes remaining [] e = inl refl
    placed_of k nodes remaining (c ∷ candidates) e =
        let (m, f) = draw_one-finds k remaining c candidates in
        let (i, left) =
          In-of_keep F m (λ n. is_left F n.hostname remaining) nodes
            (subst (λ l. In m l) (sym e) (draw_one-In k remaining (c ∷ candidates) m f)) in
        inr (m, rw (f, use_one) (rw left refl), i, left)

    -- What the loop has placed.
    record Placed (k : ℕ) (nodes : List NodeInfo) (hosts : List String) (remaining : List NodeInfo)
        : Type 0 where
      chosen : List NodeInfo
      answer : place_each F k nodes hosts remaining ≡ ok chosen
      complete : length chosen ≡ length hosts
      placed : All (λ n. has_room n ≡ true) chosen
      bounded : (h : String) → assigned h chosen ≤ room_of h remaining

    place_each-Placed :
        (k : ℕ) (nodes : List NodeInfo) (hosts : List String) (remaining : List NodeInfo)
        → Distinct nodes
        → Raised nodes remaining
        → length hosts ≤ sum_of room remaining
        → Placed k nodes hosts remaining
    unfolding place_each
    place_each-Placed k nodes [] remaining d r enough = record {
      chosen = [];
      answer = refl;
      complete = refl;
      placed = tt;
      bounded = λ h. omega arith;
    }
    place_each-Placed k nodes (h ∷ hosts) remaining d r enough =
        elim (placed_of k nodes remaining (candidates_of nodes remaining) refl) [
          | inl e ↦ absurd (
              omega (
                arith,
                enough,
                nothing_left F nodes remaining d r
                    (keep-none F (λ n. is_left F n.hostname remaining) nodes e),
              ))
          | inr (n, f, i, left) ↦
              let rest =
                place_each-Placed (k + 1) nodes hosts (take_one F n.hostname remaining) d
                  (Raised-take_one F n.hostname nodes remaining r)
                  (omega (arith, enough, sum_of-take_one F n.hostname remaining left)) in
              record {
                chosen = n ∷ rest.chosen;
                answer = rw (f, rest.answer) refl;
                complete = omega (arith, rest.complete);
                placed = (is_left-has_room F n nodes remaining d r i left, rest.placed);
                bounded = λ j.
                    omega (arith, rest.bounded j, room_of-take_one F n.hostname j remaining left);
              }
        ]

  remaining_of-Distinct : (nodes : List NodeInfo) → Distinct nodes → remaining_of F nodes ≡ nodes
  unfolding remaining_of
  remaining_of-Distinct [] d = refl
  remaining_of-Distinct (n ∷ nodes) d =
      rw (none_of nodes d.0) (ap (◌∷◌ n) (remaining_of-Distinct nodes d.1))
    where
      none_of :
          (xs : List NodeInfo)
          → All (λ m. str_eq m.hostname n.hostname ≡ false) xs
          → any_of (λ m. str_eq m.hostname n.hostname) xs ≡ false
      none_of [] a = refl
      none_of (x ∷ xs) a = rw a.0 (none_of xs a.1)

  -- When the capacity check passes, every host gets a node, and no node more hosts than it has room
  -- for: for nodes of different names, weights whose sum is not negative, numbers drawn by
  -- `random.uniform(0, t)` that are at most `t` where `t` is not negative, and a `sum` that adds up
  -- the weights as the loop does. The `sum` of floats does so up to Python 3.11; later ones
  -- compensate rounding.
  pub weighted_batch-IsAssignment :
      (nodes : List NodeInfo) (hosts : List String)
      → ((k : ℕ) (t : F.Number) → F.le F.zero t ≡ true → F.le (F.uniform k t) t ≡ true)
      → ((k : ℕ) (remaining candidates : List NodeInfo)
          → F.le F.zero (F.total_of (noisy_weights F k 0 remaining candidates)) ≡ true)
      → ((weights : List F.Number) → F.total_of weights ≡ sum_up F F.zero weights)
      → Distinct nodes
      → short_of_capacity nodes (length hosts) ≡ false
      → (chosen : List NodeInfo) × (batch_node_select F nodes hosts ≡ ok chosen)
        × IsAssignment nodes (length hosts) chosen
  unfolding batch_node_select
  weighted_batch-IsAssignment nodes hosts within positive exact d enough =
      let same = remaining_of-Distinct nodes d in
      let room_left : length hosts ≤ sum_of room nodes =
        omega
          (arith, enough_room nodes (length hosts) enough, sum_of-keep_le room has_room nodes) in
      let p =
        place_each-Placed within positive exact 0 nodes hosts nodes d (Raised-refl F nodes)
          room_left in
      (
        p.chosen,
        rw same (rw enough p.answer),
        record { complete = p.complete; placed = p.placed; within = p.bounded },
      )
