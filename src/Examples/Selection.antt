-- ===== src/Examples/Selection.antt =====
-- The schedulers on two nodes.
use linux_net_x.Base.{
  str_eq, ◌+◌, leb, false, arith, ℕ, ◌-◌, ◌≤◌, min, String, ◌≡◌, refl, ◌⊎◌, true, none, some, List,
  [], ◌∷◌, ◌++◌, map, keep, All, In, replicate, length,
}
use linux_net_x.Nodes.{
  NodeInfo, ok, raise, worker_unavailable, has_room, assigned, room_of, IsAssignment,
}
use linux_net_x.Schedulers.Groups.{load_groups}
use linux_net_x.Schedulers.Greedy
use linux_net_x.Schedulers.Greedy.Laws.{greedy_batch-IsAssignment}
use linux_net_x.Schedulers.LeastLoad
use linux_net_x.Schedulers.LeastLoad.Select.{Precedes, node_select_best}
use linux_net_x.Schedulers.LeastLoad.Batch.{least_load_batch-IsAssignment}
use linux_net_x.Schedulers.LoadWeightedRandom
use linux_net_x.Schedulers.LoadWeightedRandom.{Numbers}
use linux_net_x.Schedulers.LoadWeightedRandom.Batch.{sum_up}
use linux_net_x.Schedulers.LeastLoadRandom
use linux_net_x.Schedulers.LeastLoadRandom.Select.{IsDraw, IsLeastLoaded, node_select-IsLeastLoaded}
use linux_net_x.Schedulers.LeastLoadRandom.Batch.{reach, batch_placement}

abbrev busy : NodeInfo
busy = record { hostname = "busy"; count = 1; capacity = 3; queue = "NodeQ_busy" }

abbrev idle : NodeInfo
idle = record { hostname = "idle"; count = 0; capacity = 1; queue = "NodeQ_idle" }

abbrev nodes : List NodeInfo
nodes = busy ∷ idle ∷ []

abbrev hosts : List String
hosts = "x" ∷ "y" ∷ []

abbrev first_draw : ℕ → ℕ → ℕ
first_draw k n = 0

first_draw-IsDraw : IsDraw first_draw
first_draw-IsDraw k n pos = pos

greedy_batch-IsAssignment_example :
    (chosen : List NodeInfo) × (Greedy.batch_node_select nodes hosts ≡ ok chosen)
    × IsAssignment nodes (length hosts) chosen
greedy_batch-IsAssignment_example = greedy_batch-IsAssignment nodes hosts refl

node_select_best_example :
    ((LeastLoad.node_select nodes "x" ≡ raise worker_unavailable) × (keep has_room nodes ≡ []))
    ⊎ ((n : NodeInfo) × (LeastLoad.node_select nodes "x" ≡ ok n)
        × In n (keep has_room nodes)
        × All (Precedes n) (keep has_room nodes))
node_select_best_example = node_select_best nodes "x"

least_load_batch-IsAssignment_example :
    (chosen : List NodeInfo) × (LeastLoad.batch_node_select nodes hosts ≡ ok (map some chosen))
    × IsAssignment nodes (length hosts) chosen
least_load_batch-IsAssignment_example = least_load_batch-IsAssignment nodes hosts refl

node_select-IsLeastLoaded_example :
    ((LeastLoadRandom.node_select first_draw nodes "x" ≡ raise worker_unavailable)
      × (keep has_room nodes ≡ []))
    ⊎ ((n : NodeInfo) × (LeastLoadRandom.node_select first_draw nodes "x" ≡ ok n)
        × IsLeastLoaded (keep has_room nodes) n)
node_select-IsLeastLoaded_example = node_select-IsLeastLoaded first_draw nodes "x" first_draw-IsDraw

batch_placement_example :
    (chosen : List NodeInfo) × (LeastLoadRandom.batch_node_select first_draw nodes hosts
      ≡ some (ok (map some chosen ++ replicate (length hosts - length chosen) none)))
    × (length chosen ≡ min (length hosts) (reach (load_groups nodes)))
    × All (λ n. has_room n ≡ true) chosen
    × ((h : String) → assigned h chosen ≤ room_of h nodes)
batch_placement_example = batch_placement first_draw nodes hosts first_draw-IsDraw refl

abbrev whole_sum : ℕ → List ℕ → ℕ
whole_sum acc [] = acc
whole_sum acc (w ∷ weights) = whole_sum (acc + w) weights

abbrev whole_total : List ℕ → ℕ
whole_total = whole_sum 0

names_differ : str_eq idle.hostname busy.hostname ≡ false
names_differ = refl

-- Numbers without a fraction, with the least noise, and draws of the upper bound.
abbrev whole_numbers : Numbers
whole_numbers = record {
  Number = ℕ;
  zero = 0;
  add = λ a b. a + b;
  le = leb;
  total_of = whole_total;
  perturb = λ host size i w. w;
  noisy = λ k i w. w;
  uniform = λ k t. t;
  index = λ size. 0;
}

whole_uniform : (k t : ℕ) → leb 0 t ≡ true → leb (whole_numbers.uniform k t) t ≡ true
whole_uniform k t pos = ground arith

whole_positive :
    (k : ℕ) (remaining candidates : List NodeInfo)
    → leb 0 (whole_total (LoadWeightedRandom.noisy_weights whole_numbers k 0 remaining candidates))
      ≡ true
whole_positive k remaining candidates = ground arith

whole_exact : (weights : List ℕ) → whole_total weights ≡ sum_up whole_numbers 0 weights
whole_exact weights = same 0 weights
  where
    same : (acc : ℕ) (l : List ℕ) → whole_sum acc l ≡ sum_up whole_numbers acc l
    same acc [] = refl
    same acc (w ∷ l) = same (acc + w) l
