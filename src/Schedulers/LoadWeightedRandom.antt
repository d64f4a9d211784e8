-- ===== src/Schedulers/LoadWeightedRandom.antt =====
-- linux_net/plugins/schedulers/load_weighted_random/__init__.py
-- Floating-point numbers, their weights and the drawing of them are parameters: `perturb` and
-- `noisy` are the weights, `uniform k t` is the k-th number drawn by `random.uniform(0, t)`.
pub mod Select
pub mod Batch
pub mod Placement
use linux_net_x.Base.{
  ℕ, ◌+◌, ◌*◌, String, Bool, true, false, Option, none, some, List, [], ◌∷◌, any_of, keep, length,
  get_elem?, str_eq, if◌then◌else◌,
}
use linux_net_x.Nodes.{
  NodeInfo, Result, ok, raise, worker_unavailable, index_error, has_room, room, short_of_capacity,
  ◌>>=◌,
}

-- `total_of` is Python's `sum` of numbers.
pub record Numbers : Type 1 where
  pub Number : Type 0
  pub zero : Number
  pub add : Number → Number → Number
  pub le : Number → Number → Bool
  pub total_of : List Number → Number
  pub perturb : String → ℕ → ℕ → ℕ → Number
  pub noisy : ℕ → ℕ → ℕ → Number
  pub uniform : ℕ → Number → Number
  pub index : ℕ → ℕ

module _ (F : Numbers) where
  -- The loop that adds up the weights until the drawn number is reached.
  unfoldable pub pick : F.Number → F.Number → List NodeInfo → List F.Number → Option NodeInfo
  pick r acc [] weights = none
  pick r acc (n ∷ nodes) [] = none
  pick r acc (n ∷ nodes) (w ∷ weights) =
      let rest = pick r (F.add acc w) nodes weights in if F.le r (F.add acc w) then some n else rest

  perturbed_weights : String → ℕ → ℕ → List NodeInfo → List F.Number
  perturbed_weights host size i [] = []
  perturbed_weights host size i (n ∷ nodes) =
      F.perturb host size i (room n) ∷ perturbed_weights host size (i + 1) nodes

  last_of : NodeInfo → List NodeInfo → NodeInfo
  last_of n [] = n
  last_of n (m ∷ nodes) = last_of m nodes

  pick_or_last : Option NodeInfo → NodeInfo → List NodeInfo → NodeInfo
  unfolding last_of
  pick_or_last (some m) n nodes = m
  pick_or_last none n nodes = last_of n nodes

  -- `random.choice`
  choose : List NodeInfo → Result NodeInfo
  choose nodes = elim (get_elem? nodes (F.index (length nodes))) [
    | none ↦ raise index_error
    | some n ↦ ok n
  ]

  select_from : String → List NodeInfo → Result NodeInfo
  unfolding pick perturbed_weights pick_or_last choose
  select_from host [] = raise worker_unavailable
  select_from host (n ∷ available) =
      let weights = perturbed_weights host (length (n ∷ available)) 0 (n ∷ available) in
      let total = F.total_of weights in
      if F.le total F.zero
      then choose (n ∷ available)
      else ok (pick_or_last (pick (F.uniform 0 total) F.zero (n ∷ available) weights) n available)

  pub node_select : List NodeInfo → String → Result NodeInfo
  unfolding select_from
  node_select nodes host = select_from host (keep has_room nodes)

  -- The dict `remaining`: an entry holds the capacity of its node and how much of it is used. The
  -- last node of a name gives the entry.
  unfoldable pub remaining_of : List NodeInfo → List NodeInfo
  remaining_of [] = []
  remaining_of (n ∷ nodes) =
      let rest = remaining_of nodes in
      if any_of (λ m. str_eq m.hostname n.hostname) nodes then rest else n ∷ rest

  -- `remaining[n] > 0`
  unfoldable pub is_left : String → List NodeInfo → Bool
  is_left h [] = false
  is_left h (m ∷ remaining) = if str_eq m.hostname h then has_room m else is_left h remaining

  -- `remaining[selected] -= 1`
  unfoldable pub take_one : String → List NodeInfo → List NodeInfo
  take_one h [] = []
  take_one h (m ∷ remaining) =
      if str_eq m.hostname h
      then record m { count = m.count + 1 } ∷ remaining
      else m ∷ take_one h remaining

  room_left : String → List NodeInfo → ℕ
  room_left h [] = 0
  room_left h (m ∷ remaining) = if str_eq m.hostname h then room m else room_left h remaining

  -- `(remaining[n] + 1) ** 2`, with noise
  pub noisy_weights : ℕ → ℕ → List NodeInfo → List NodeInfo → List F.Number
  unfolding room_left
  noisy_weights k i remaining [] = []
  noisy_weights k i remaining (n ∷ candidates) =
      let w = room_left n.hostname remaining + 1 in
      F.noisy k i (w * w) ∷ noisy_weights k (i + 1) remaining candidates

  unfoldable pub draw_one : ℕ → List NodeInfo → List NodeInfo → Option NodeInfo
  unfolding noisy_weights pick
  draw_one k remaining candidates =
      let weights = noisy_weights k 0 remaining candidates in
      pick (F.uniform k (F.total_of weights)) F.zero candidates weights

  -- The test of the selected node, and its use.
  use_one : List NodeInfo → Option NodeInfo → Result (NodeInfo × List NodeInfo)
  unfolding is_left take_one
  use_one remaining none = raise worker_unavailable
  use_one remaining (some n) =
      if is_left n.hostname remaining
      then ok (n, take_one n.hostname remaining)
      else raise worker_unavailable

  -- The round for one host.
  place_one : ℕ → List NodeInfo → List NodeInfo → Result (NodeInfo × List NodeInfo)
  unfolding use_one draw_one
  place_one k remaining [] = raise worker_unavailable
  place_one k remaining (n ∷ candidates) = use_one remaining (draw_one k remaining (n ∷ candidates))

  -- The loop over the hosts; `k` counts them.
  place_each : ℕ → List NodeInfo → List String → List NodeInfo → Result (List NodeInfo)
  unfolding place_one is_left
  place_each k nodes [] remaining = ok []
  place_each k nodes (h ∷ hosts) remaining =
      place_one k remaining (keep (λ n. is_left n.hostname remaining) nodes) >>= λ x.
      place_each (k + 1) nodes hosts x.1 >>= λ rest. ok (x.0 ∷ rest)

  pub batch_node_select : List NodeInfo → List String → Result (List NodeInfo)
  unfolding place_each remaining_of
  batch_node_select nodes hosts =
      let remaining = remaining_of nodes in
      if short_of_capacity remaining (length hosts)
      then raise worker_unavailable
      else place_each 0 nodes hosts remaining
