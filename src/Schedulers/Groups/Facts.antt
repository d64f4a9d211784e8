-- ===== src/Schedulers/Groups/Facts.antt =====
-- What grouping and sorting keep: sums over all slots, and predicates of every slot.
use linux_net_x.Base.{
  ℕ, ◌+◌, ◌≡◌, refl, inl, inr, Bool-cases, true, List, [], ◌∷◌, arith, ◌==◌, sum_of, sum_of-append,
  sum_of-sort_by, All, All-append, All-sort_by, keep,
}
use linux_net_x.Nodes.{NodeInfo, has_room, room}
use linux_net_x.Schedulers.Groups.{Slot, Groups, add_to_group, group_nodes, load_groups, by_level}

-- A sum over the slots of all groups.
abbrev pub total : (Slot → ℕ) → Groups → ℕ
total f = sum_of (λ g. sum_of f g.1)

-- Every slot is a node with room, and with the room that it has.
abbrev pub Fits : Slot → Type 0
Fits s = (has_room s.0 ≡ true) × (s.1 ≡ room s.0)

abbrev pub AllFit : Groups → Type 0
AllFit = All (λ g. All Fits g.1)

module _ (f : Slot → ℕ) where
  total-add_to_group :
      (count : ℕ) (slot : Slot) (groups : Groups)
      → total f (add_to_group count slot groups) ≡ f slot + total f groups
  unfolding add_to_group
  total-add_to_group count slot [] = omega arith
  total-add_to_group count slot ((c, group) ∷ groups) =
      ground (arith, sum_of-append f group (slot ∷ []), total-add_to_group count slot groups)

  total-group_nodes :
      (nodes : List NodeInfo) (groups : Groups)
      → total f (group_nodes nodes groups)
        ≡ sum_of (λ n. f (n, room n)) (keep has_room nodes) + total f groups
  unfolding group_nodes
  total-group_nodes [] groups = omega arith
  total-group_nodes (n ∷ nodes) groups = elim (Bool-cases (has_room n)) [
    | inl e ↦ rw e (
        omega (
          arith,
          total-group_nodes nodes (add_to_group n.count (n, room n) groups),
          total-add_to_group n.count (n, room n) groups,
        ))
    | inr e ↦ rw e (total-group_nodes nodes groups)
  ]

  -- The groups hold the nodes with room, and nothing else.
  pub total-load_groups :
      (nodes : List NodeInfo)
      → total f (load_groups nodes) ≡ sum_of (λ n. f (n, room n)) (keep has_room nodes)
  unfolding load_groups
  total-load_groups nodes = omega (arith, total-group_nodes nodes [])

  pub total-by_level : (groups : Groups) → total f (by_level groups) ≡ total f groups
  unfolding by_level
  total-by_level groups = sum_of-sort_by _ _ groups

add_to_group-AllFit :
    (count : ℕ) (slot : Slot) (groups : Groups)
    → Fits slot
    → AllFit groups
    → AllFit (add_to_group count slot groups)
unfolding add_to_group
add_to_group-AllFit count slot [] fits h = ((fits, tt), tt)
add_to_group-AllFit count slot ((c, group) ∷ groups) fits h = elim (Bool-cases (c == count)) [
  | inl e ↦ rw e (All-append Fits group (slot ∷ []) h.0 (fits, tt), h.1)
  | inr e ↦ rw e (h.0, add_to_group-AllFit count slot groups fits h.1)
]

group_nodes-AllFit :
    (nodes : List NodeInfo) (groups : Groups) → AllFit groups → AllFit (group_nodes nodes groups)
unfolding group_nodes
group_nodes-AllFit [] groups h = h
group_nodes-AllFit (n ∷ nodes) groups h = elim (Bool-cases (has_room n)) [
  | inl e ↦
      rw e (group_nodes-AllFit nodes _ (add_to_group-AllFit n.count (n, room n) groups (e, refl) h))
  | inr e ↦ rw e (group_nodes-AllFit nodes groups h)
]

pub load_groups-AllFit : (nodes : List NodeInfo) → AllFit (load_groups nodes)
unfolding load_groups
load_groups-AllFit nodes = group_nodes-AllFit nodes [] tt

pub by_level-AllFit : (groups : Groups) → AllFit groups → AllFit (by_level groups)
unfolding by_level
by_level-AllFit groups h = All-sort_by _ _ groups h

pub sum_of-by_level :
    (f : ℕ × List Slot → ℕ) (groups : Groups) → sum_of f (by_level groups) ≡ sum_of f groups
unfolding by_level
sum_of-by_level f groups = sum_of-sort_by f _ groups
