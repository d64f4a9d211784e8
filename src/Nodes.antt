-- ===== src/Nodes.antt =====
-- linux_net/models/common.py: `NodeInfo`; linux_net/utils/exceptions.py: what a selection raises.
use linux_net_x.Base.{
  ℕ, ◌+◌, ◌-◌, ◌≤◌, String, ◌≡◌, Bool, true, false, List, [], ◌∷◌, arith, ltb, ltb→le, str_eq,
  if◌then◌else◌, sum_of, keep, All, length,
}

pub record NodeInfo : Type 0 where
  pub hostname : String
  pub count : ℕ
  pub capacity : ℕ
  pub queue : String

-- `NodeInfo.__eq__`: nodes are the same if their hostnames are.
abbrev pub same_node : NodeInfo → NodeInfo → Bool
same_node a b = str_eq a.hostname b.hostname

-- The exceptions of the control plane.
pub data Error : Type 0 where
  worker_unavailable job_operation host_already_pinned node_preempted : Error
  value_error index_error assertion start_failed not_implemented : Error

pub data Result {ℓ} (A : Type ℓ) : Type ℓ where
  ok : A → Result A
  raise : Error → Result A

infixl 5 ◌>>=◌ ◌>>◌
abbrev pub ◌>>=◌ {ℓ κ} : {A : Type ℓ} {B : Type κ} → Result A → (A → Result B) → Result B
ok a >>= f = f a
raise e >>= f = raise e

abbrev pub ◌>>◌ {ℓ κ} : {A : Type ℓ} {B : Type κ} → Result A → Result B → Result B
m >> k = m >>= λ _. k

-- `n.count < n.capacity`
abbrev pub has_room : NodeInfo → Bool
has_room n = ltb n.count n.capacity

-- `n.capacity - n.count`, for a node that has room; 0 for any other.
abbrev pub room : NodeInfo → ℕ
room n = n.capacity - n.count

-- How many entries of an assignment go to the node named `h`.
abbrev pub assigned : String → List NodeInfo → ℕ
assigned h = sum_of (λ n. if str_eq n.hostname h then 1 else 0)

-- The room that a list of nodes has under the name `h`.
abbrev pub room_of : String → List NodeInfo → ℕ
room_of h = sum_of (λ n. if str_eq n.hostname h then room n else 0)

-- `sum(n.capacity - n.count for n in nodes) < wanted`, on integers: the negative terms of
-- overfull nodes count too, so the two sums are compared without subtracting.
abbrev pub short_of_capacity : List NodeInfo → ℕ → Bool
short_of_capacity nodes wanted =
    ltb (sum_of (λ n. n.capacity) nodes) (wanted + sum_of (λ n. n.count) nodes)

room-sum :
    (nodes : List NodeInfo)
    → sum_of (λ n. n.capacity) nodes
      ≤ sum_of room (keep has_room nodes) + sum_of (λ n. n.count) nodes
room-sum [] = omega arith
room-sum (n ∷ nodes) = ground (arith, room-sum nodes)

-- The capacity check passes only if the nodes with room have enough of it.
pub enough_room :
    (nodes : List NodeInfo) (wanted : ℕ)
    → short_of_capacity nodes wanted ≡ false
    → wanted ≤ sum_of room (keep has_room nodes)
enough_room nodes wanted h = omega (arith, room-sum nodes, ltb→le _ _ h)

-- What a batch selection promises: one node for each host, each with room, and none gets more
-- hosts than it has room for.
pub record IsAssignment (nodes : List NodeInfo) (wanted : ℕ) (chosen : List NodeInfo) : Type 0 where
  pub complete : length chosen ≡ wanted
  pub placed : All (λ n. has_room n ≡ true) chosen
  pub within : (h : String) → assigned h chosen ≤ room_of h nodes
