-- ===== src/Schedulers/LeastLoadRandom.antt =====
-- linux_net/plugins/schedulers/least_load_random/__init__.py
-- Python's `random` is a stream of draws: `draw k n` is the k-th number drawn from `range(n)`.
pub mod Select
pub mod Batch
use linux_net_x.Base.{
  ℕ, zero, suc, ◌+◌, ◌-◌, min, String, ◌≡◌, refl, Bool, true, false, List, Option, none, some, [],
  ◌∷◌, ltb, leb, ◌==◌, if◌then◌else◌, sum_of, keep, length, get_elem?, set, drop_at,
}
use linux_net_x.Nodes.{
  NodeInfo, Result, ok, raise, worker_unavailable, index_error, has_room, room, short_of_capacity,
}
use linux_net_x.Schedulers.Groups.{Slot, Groups, load_groups, by_level, Slots, no_slots, write}

-- `min(f(x) for x in xs)` and `max(...)` of a list that begins with `x`.
pub min_of : {A : Type 0} → (A → ℕ) → A → List A → ℕ
min_of f x [] = f x
min_of f x (y ∷ ys) = let m = min_of f y ys in if ltb m (f x) then m else f x

pub max_of : {A : Type 0} → (A → ℕ) → A → List A → ℕ
max_of f x [] = f x
max_of f x (y ∷ ys) = let m = max_of f y ys in if ltb (f x) m then m else f x

-- `phase1_candidates` and `phase2_candidates`
phase_one : NodeInfo → List NodeInfo → List NodeInfo
unfolding min_of
phase_one n available = keep (λ m. m.count == min_of (λ x. x.count) n available) (n ∷ available)

phase_two : List NodeInfo → List NodeInfo
unfolding max_of
phase_two [] = []
phase_two (n ∷ rest) = keep (λ m. room m == max_of room n rest) (n ∷ rest)

-- `random.choice` raises IndexError on an empty list, which `select_from` never gives it.
choice : ℕ → List NodeInfo → Result NodeInfo
choice i nodes = elim (get_elem? nodes i) [ none ↦ raise index_error | some n ↦ ok n ]

module _ (draw : ℕ → ℕ → ℕ) where
  select_from : List NodeInfo → Result NodeInfo
  unfolding phase_one phase_two choice
  select_from [] = raise worker_unavailable
  select_from (n ∷ available) =
      let candidates = phase_two (phase_one n available) in
      choice (draw 0 (length candidates)) candidates

  pub node_select : List NodeInfo → String → Result NodeInfo
  unfolding select_from
  node_select nodes host = select_from (keep has_room nodes)

  -- The `while remaining_hosts > 0` loop. A round pops a used-up node or places a host; the loop
  -- ends on `remaining_hosts`, and `none` means that the fuel ran out. `k` counts the draws.
  distribute : ℕ → ℕ → List Slot → ℕ → Slots → Option (ℕ × Slots)
  unfolding write
  distribute fuel k best zero s = some (k, s)
  distribute zero k best (suc left) s = none
  distribute (suc fuel) k best (suc left) s =
      let i = draw k (length best) in
      elim (get_elem? best i) [
        | none ↦ none
        | some (node, zero) ↦ distribute fuel (k + 1) (drop_at best i) (suc left) s
        | some (node, suc r) ↦ distribute fuel (k + 1) (set best i (node, r)) left (write node s)
      ]

  -- One level: only the nodes with the most room at this level take hosts. The fuel is enough,
  -- since a round shortens `best_nodes` or `remaining_hosts` by one.
  place_level : ℕ → ℕ → List Slot → Slots → Option (ℕ × Slots)
  unfolding distribute max_of
  place_level host_count k [] s = some (k, s)
  place_level host_count k (g ∷ group) s =
      let best = keep (λ x. x.1 == max_of (λ y. y.1) g group) (g ∷ group) in
      let hosts_for_level = min (sum_of (λ x. x.1) best) (host_count - s.host_index) in
      distribute (hosts_for_level + length best) k best hosts_for_level s

  place_levels : ℕ → ℕ → Groups → Slots → Option Slots
  unfolding place_level
  place_levels host_count k [] s = some s
  place_levels host_count k ((count, group) ∷ groups) s = elim (leb host_count s.host_index) [
    | true ↦ some s
    | false ↦ elim (place_level host_count k group s) [
      | none ↦ none
      | some (k', s') ↦ place_levels host_count k' groups s'
    ]
  ]

  -- `none`: a draw outside its range, or no fuel.
  pub batch_node_select : List NodeInfo → List String → Option (Result (List (Option NodeInfo)))
  unfolding place_levels load_groups by_level
  batch_node_select nodes [] = some (ok [])
  batch_node_select nodes (h ∷ hosts) =
      let host_count = length (h ∷ hosts) in
      if short_of_capacity nodes host_count
      then some (raise worker_unavailable)
      else elim (place_levels host_count 0 (by_level (load_groups nodes)) (no_slots host_count)) [
        | none ↦ none
        | some s ↦ some (ok s.result)
      ]
