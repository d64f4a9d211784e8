-- ===== src/Schedulers/Greedy.antt =====
-- linux_net/plugins/schedulers/greedy/__init__.py
pub mod Laws
use linux_net_x.Base.{
  ℕ, zero, suc, ◌+◌, ◌-◌, ◌≤◌, ◌<◌, min, String, ◌≡◌, refl, ◌⊎◌, inl, inr, Bool, true, false, List,
  [], ◌∷◌, ◌++◌, arith, ltb, leb, ◌==◌, str_eq, str_lt, if◌then◌else◌, sum_of, keep, All, replicate,
  length, sort_by,
}
use linux_net_x.Nodes.{
  NodeInfo, Result, ok, raise, worker_unavailable, has_room, room, assigned, room_of,
  short_of_capacity, enough_room,
}

pub node_select : List NodeInfo → String → Result NodeInfo
node_select [] host = raise worker_unavailable
node_select (n ∷ nodes) host = if has_room n then ok n else node_select nodes host

-- The order of the keys `(-count, -(capacity - count), hostname)`.
key_le : NodeInfo → NodeInfo → Bool
key_le a b =
    if ltb b.count a.count
    then true
    else if ltb a.count b.count
    then false
    else if ltb (room b) (room a)
    then true
    else if ltb (room a) (room b)
    then false
    else (if str_lt b.hostname a.hostname then false else true)

-- The loop over `available_nodes`; `remaining <= 0` ends it.
fill : List NodeInfo → ℕ → List NodeInfo
fill [] remaining = []
fill (node ∷ nodes) zero = []
fill (node ∷ nodes) (suc r) =
    let assign = min (room node) (suc r) in replicate assign node ++ fill nodes (suc r - assign)

pub batch_node_select : List NodeInfo → List String → Result (List NodeInfo)
unfolding key_le fill sort_by
batch_node_select nodes [] = ok []
batch_node_select nodes (h ∷ hosts) =
    if short_of_capacity nodes (length (h ∷ hosts))
    then raise worker_unavailable
    else ok (fill (sort_by key_le (keep has_room nodes)) (length (h ∷ hosts)))
