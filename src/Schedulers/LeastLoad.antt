-- ===== src/Schedulers/LeastLoad.antt =====
-- linux_net/plugins/schedulers/least_load/__init__.py
pub mod Select
pub mod Batch
use linux_net_x.Base.{
  ℕ, zero, suc, ◌-◌, min, String, ◌≡◌, refl, Bool, true, false, List, Option, [], ◌∷◌, ltb, leb,
  ◌==◌, str_lt, if◌then◌else◌, sum_of, keep, map, length, sort_by,
}
use linux_net_x.Nodes.{
  NodeInfo, Result, ok, raise, worker_unavailable, has_room, room, short_of_capacity,
}
use linux_net_x.Schedulers.Groups.{
  Slot, Groups, load_groups, by_level, Slots, no_slots, write_times,
}

-- The tests of the loop body: `node` takes the place of `selected_node`.
better : NodeInfo → NodeInfo → Bool
better node selected =
    if ltb node.count selected.count
    then true
    else if node.count == selected.count
    then (if ltb (room selected) (room node)
        then true
        else if room node == room selected
        then str_lt node.hostname selected.hostname
        else false)
    else false

prefer : NodeInfo → NodeInfo → NodeInfo
unfolding better
prefer node selected = if better node selected then node else selected

-- The loop, after its first round has taken the first available node.
pick : NodeInfo → List NodeInfo → NodeInfo
unfolding prefer
pick selected [] = selected
pick selected (node ∷ nodes) = pick (prefer node selected) nodes

select_from : List NodeInfo → Result NodeInfo
unfolding pick
select_from [] = raise worker_unavailable
select_from (node ∷ nodes) = ok (pick node nodes)

pub node_select : List NodeInfo → String → Result NodeInfo
unfolding select_from
node_select nodes host = select_from (keep has_room nodes)

-- The order of the keys `(-remaining, hostname)`.
slot_le : Slot → Slot → Bool
slot_le a b =
    if ltb b.1 a.1
    then true
    else if ltb a.1 b.1
    then false
    else (if str_lt b.0.hostname a.0.hostname then false else true)

sort_groups : Groups → Groups
unfolding sort_by slot_le
sort_groups groups = map (λ g. (g.0, sort_by slot_le g.1)) groups

-- The `while` loop over one level; `remaining_in_level` falls by what each node takes.
place_level : List Slot → ℕ → Slots → Slots
unfolding write_times
place_level [] remaining_in_level s = s
place_level ((node, remaining) ∷ slots) zero s = s
place_level ((node, remaining) ∷ slots) (suc left) s =
    let assignments = min remaining (suc left) in
    place_level slots (suc left - assignments) (write_times assignments node s)

-- The `for` loop over the levels, with its `break`.
place_levels : ℕ → Groups → Slots → Slots
unfolding place_level
place_levels host_count [] s = s
place_levels host_count ((count, group) ∷ groups) s =
    let hosts_for_level = min (sum_of (λ g. g.1) group) (host_count - s.host_index) in
    let rest = place_levels host_count groups (place_level group hosts_for_level s) in
    if leb host_count s.host_index then s else rest

pub batch_node_select : List NodeInfo → List String → Result (List (Option NodeInfo))
unfolding sort_groups place_levels load_groups by_level
batch_node_select nodes [] = ok []
batch_node_select nodes (h ∷ hosts) =
    let host_count = length (h ∷ hosts) in
    if short_of_capacity nodes host_count
    then raise worker_unavailable
    else ok
        (place_levels host_count (by_level (sort_groups (load_groups nodes)))
          (no_slots host_count)).result
