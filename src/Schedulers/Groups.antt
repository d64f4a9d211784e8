-- ===== src/Schedulers/Groups.antt =====
-- The grouping of nodes by load and the result array that the two least-load schedulers share:
-- linux_net/plugins/schedulers/least_load/__init__.py and least_load_random/__init__.py.
pub mod Facts
pub mod Writes
use linux_net_x.Base.{
  ℕ, zero, suc, ◌+◌, ◌-◌, ◌≤◌, ◌<◌, min, String, ◌≡◌, refl, Bool, true, false, List, Option, none,
  some, [], ◌∷◌, ◌++◌, arith, ltb, leb, ◌==◌, str_lt, if◌then◌else◌, sum_of, map, replicate,
  sort_by, set,
}
use linux_net_x.Nodes.{NodeInfo, has_room, room}

-- `(node, remaining)`
abbrev pub Slot : Type 0
Slot = NodeInfo × ℕ

-- `Dict[int, List[Tuple[NodeInfo, int]]]`, its keys in the order of insertion.
abbrev pub Groups : Type 0
Groups = List (ℕ × List Slot)

-- `groups[count].append(slot)` on a `defaultdict(list)`.
pub add_to_group : ℕ → Slot → Groups → Groups
add_to_group count slot [] = (count, slot ∷ []) ∷ []
add_to_group count slot ((c, group) ∷ groups) =
    if c == count
    then (c, group ++ slot ∷ []) ∷ groups
    else (c, group) ∷ add_to_group count slot groups

group_nodes : List NodeInfo → Groups → Groups
unfolding add_to_group
group_nodes [] groups = groups
group_nodes (node ∷ nodes) groups =
    group_nodes nodes
      (if has_room node then add_to_group node.count (node, room node) groups else groups)

unfoldable pub load_groups : List NodeInfo → Groups
unfolding group_nodes
load_groups nodes = group_nodes nodes []

-- `for count in sorted(groups.keys())`, each with its group.
unfoldable pub by_level : Groups → Groups
unfolding sort_by
by_level groups = sort_by (λ a b. leb a.0 b.0) groups

-- `result` and `host_index`
pub record Slots : Type 0 where
  pub result : List (Option NodeInfo)
  pub host_index : ℕ

abbrev pub no_slots : ℕ → Slots
no_slots host_count = record { result = replicate host_count none; host_index = 0 }

-- `result[host_index] = node; host_index += 1`
unfoldable pub write : NodeInfo → Slots → Slots
write node s = record {
  result = set s.result s.host_index (some node);
  host_index = s.host_index + 1;
}

-- `for _ in range(assignments)`
unfoldable pub write_times : ℕ → NodeInfo → Slots → Slots
unfolding write
write_times zero node s = s
write_times (suc k) node s = write_times k node (write node s)
