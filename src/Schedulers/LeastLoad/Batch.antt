-- ===== src/Schedulers/LeastLoad/Batch.antt =====
-- `LeastLoadScheduler.batch_node_select` fills every place, within the room of each node.
use mathlib.Core.List.{append_assoc, append-nil}
use linux_net_x.Base.{
  ℕ, zero, suc, ◌+◌, ◌-◌, ◌≤◌, min, String, ◌≡◌, refl, ap, subst, ◌∙◌, ◌↔◌, ◌≢◌, inl, inr, true,
  false, List, some, [], ◌∷◌, ◌++◌, arith, map, leb, str_eq, if◌then◌else◌, Bool-cases, sum_of, All,
  length, replicate, All-append, All-replicate, All-sort_by, sum_of-append, sum_of-replicate,
  sum_of-sort_by, sum_of-keep_le, length-append, length-replicate,
}
use linux_net_x.Nodes.{
  NodeInfo, ok, raise, worker_unavailable, has_room, room, assigned, short_of_capacity, enough_room,
  IsAssignment,
}
use linux_net_x.Schedulers.Groups.{
  Slot, Groups, Slots, no_slots, load_groups, by_level, write_times,
}
use linux_net_x.Schedulers.Groups.Facts.{
  total, Fits, AllFit, total-load_groups, total-by_level, load_groups-AllFit, by_level-AllFit,
}
use linux_net_x.Schedulers.Groups.Writes.{Holds, no_slots-Holds, write_times-Holds}
use linux_net_x.Schedulers.LeastLoad.{
  slot_le, sort_groups, place_level, place_levels, batch_node_select,
}

-- The nodes that one level hands out, and that all levels do, as plain lists.
level_list : List Slot → ℕ → List NodeInfo
level_list [] left = []
level_list ((node, r) ∷ slots) left =
    replicate (min r left) node ++ level_list slots (left - min r left)

levels_list : Groups → ℕ → List NodeInfo
levels_list [] left = []
levels_list ((c, group) ∷ groups) left =
    let k = min (sum_of (λ g. g.1) group) left in
    level_list group k ++ levels_list groups (left - k)

length-level_list :
    (slots : List Slot) (left : ℕ)
    → length (level_list slots left) ≡ min left (sum_of (λ g. g.1) slots)
unfolding level_list
length-level_list [] left = omega arith
length-level_list ((node, r) ∷ slots) left = omega (
  arith,
  length-append (replicate (min r left) node) (level_list slots (left - min r left)),
  length-replicate (min r left) node,
  length-level_list slots (left - min r left),
)

length-levels_list :
    (groups : Groups) (left : ℕ)
    → length (levels_list groups left) ≡ min left (total (λ g. g.1) groups)
unfolding levels_list
length-levels_list [] left = omega arith
length-levels_list ((c, group) ∷ groups) left =
    let k = min (sum_of (λ (g : Slot). g.1) group) left in
    omega (
      arith,
      length-append (level_list group k) (levels_list groups (left - k)),
      length-level_list group k,
      length-levels_list groups (left - k),
    )

level_list_zero : (slots : List Slot) → level_list slots 0 ≡ []
unfolding level_list
level_list_zero [] = refl
level_list_zero ((node, r) ∷ slots) =
    let e : min r 0 ≡ 0 = omega arith in rw e (level_list_zero slots)

levels_list_zero : (groups : Groups) → levels_list groups 0 ≡ []
unfolding levels_list
levels_list_zero [] = refl
levels_list_zero ((c, group) ∷ groups) =
    let e : min (sum_of (λ (g : Slot). g.1) group) 0 ≡ 0 = omega arith in
    rw (e, level_list_zero group) (levels_list_zero groups)

module _ (host_count : ℕ) where
  place_level-Holds :
      (slots : List Slot) (left : ℕ) (done : List NodeInfo) (s : Slots)
      → length done + left ≤ host_count
      → Holds host_count done s
      → Holds host_count (done ++ level_list slots left) (place_level slots left s)
  unfolding place_level level_list
  place_level-Holds [] left done s fits h = rw append-nil h
  place_level-Holds ((node, r) ∷ slots) zero done s fits h =
      rw (level_list_zero ((node, r) ∷ slots), append-nil) h
  place_level-Holds ((node, r) ∷ slots) (suc left) done s fits h =
      let a = min r (suc left) in
      rw (← append_assoc done (replicate a node) (level_list slots (suc left - a))) (
        place_level-Holds slots (suc left - a) (done ++ replicate a node) (write_times a node s)
          (omega (arith, length-append done (replicate a node), length-replicate a node))
          (write_times-Holds host_count a node done s (omega arith) h))

  place_levels-Holds :
      (groups : Groups) (done : List NodeInfo) (s : Slots)
      → length done ≤ host_count
      → Holds host_count done s
      → Holds host_count
          (done ++ levels_list groups (host_count - length done))
          (place_levels host_count groups s)
  unfolding place_levels levels_list
  place_levels-Holds [] done s fits h = rw append-nil h
  place_levels-Holds ((c, group) ∷ groups) done s fits h =
      elim (Bool-cases (leb host_count s.host_index)) [
        | inl full ↦
            let e : host_count - length done ≡ 0 = ground (arith, h.index) in
            rw (full, e, levels_list_zero ((c, group) ∷ groups), append-nil) h
        | inr more ↦
            let k : ℕ = min (sum_of (λ g. g.1) group) (host_count - length done) in
            let done' : List NodeInfo = done ++ level_list group k in
            let same : host_count - s.host_index ≡ host_count - length done =
              ap (λ (i : ℕ). host_count - i) h.index in
            let left : host_count - length done' ≡ host_count - length done - k =
              omega (arith, length-append done (level_list group k), length-level_list group k) in
            rw
              (
                more,
                same,
                ← append_assoc done (level_list group k)
                    (levels_list groups (host_count - length done - k)),
                ← left,
              )
              (place_levels-Holds groups done' (place_level group k s)
                (omega (arith, length-append done (level_list group k), length-level_list group k))
                (place_level-Holds group k done s (omega arith) h))
      ]

module _ (h : String) where
  abbrev of_name : Slot → ℕ
  of_name s = if str_eq s.0.hostname h then s.1 else 0

  assigned-level_list :
      (slots : List Slot) (left : ℕ) → assigned h (level_list slots left) ≤ sum_of of_name slots
  unfolding level_list
  assigned-level_list [] left = omega arith
  assigned-level_list ((node, r) ∷ slots) left =
      let a = min r left in
      let one : NodeInfo → ℕ = λ n. if str_eq n.hostname h then 1 else 0 in
      ground (
        arith,
        sum_of-append one (replicate a node) (level_list slots (left - a)),
        sum_of-replicate one a node,
        assigned-level_list slots (left - a),
      )

  assigned-levels_list :
      (groups : Groups) (left : ℕ) → assigned h (levels_list groups left) ≤ total of_name groups
  unfolding levels_list
  assigned-levels_list [] left = omega arith
  assigned-levels_list ((c, group) ∷ groups) left =
      let k = min (sum_of (λ (g : Slot). g.1) group) left in
      let one : NodeInfo → ℕ = λ n. if str_eq n.hostname h then 1 else 0 in
      omega (
        arith,
        sum_of-append one (level_list group k) (levels_list groups (left - k)),
        assigned-level_list group k,
        assigned-levels_list groups (left - k),
      )

has_room-level_list :
    (slots : List Slot) (left : ℕ)
    → All Fits slots
    → All (λ n. has_room n ≡ true) (level_list slots left)
unfolding level_list
has_room-level_list [] left fit = tt
has_room-level_list ((node, r) ∷ slots) left fit =
    All-append _ _ _ (All-replicate _ (min r left) node fit.0.0) (has_room-level_list slots _ fit.1)

has_room-levels_list :
    (groups : Groups) (left : ℕ)
    → AllFit groups
    → All (λ n. has_room n ≡ true) (levels_list groups left)
unfolding levels_list
has_room-levels_list [] left fit = tt
has_room-levels_list ((c, group) ∷ groups) left fit =
    All-append _ _ _ (has_room-level_list group _ fit.0) (has_room-levels_list groups _ fit.1)

total-sort_groups : (f : Slot → ℕ) (groups : Groups) → total f (sort_groups groups) ≡ total f groups
unfolding sort_groups
total-sort_groups f [] = refl
total-sort_groups f ((c, group) ∷ groups) =
    omega (arith, sum_of-sort_by f slot_le group, total-sort_groups f groups)

sort_groups-AllFit : (groups : Groups) → AllFit groups → AllFit (sort_groups groups)
unfolding sort_groups
sort_groups-AllFit [] fit = tt
sort_groups-AllFit ((c, group) ∷ groups) fit =
    (All-sort_by Fits slot_le group fit.0, sort_groups-AllFit groups fit.1)

-- When the capacity check passes, no place of the result stays `None`, every host gets a node with room, and
-- no node more hosts than it has room for.
pub least_load_batch-IsAssignment :
    (nodes : List NodeInfo) (hosts : List String)
    → short_of_capacity nodes (length hosts) ≡ false
    → (chosen : List NodeInfo) × (batch_node_select nodes hosts ≡ ok (map some chosen))
      × IsAssignment nodes (length hosts) chosen
unfolding batch_node_select
least_load_batch-IsAssignment nodes [] enough =
    ([], refl, record { complete = refl; placed = tt; within = λ h. omega arith })
least_load_batch-IsAssignment nodes (h ∷ hosts) enough = (
  chosen,
  rw enough (ap ok filled),
  record {
    complete = full;
    placed =
        has_room-levels_list levels wanted
          (by_level-AllFit _ (sort_groups-AllFit _ (load_groups-AllFit nodes)));
    within = λ k. omega (
      arith,
      assigned-levels_list k levels wanted,
      kept (of_name k),
      total-load_groups (of_name k) nodes,
      sum_of-keep_le (λ (n : NodeInfo). if str_eq n.hostname k then room n else 0) has_room nodes,
    );
  },
)
  where
    wanted : ℕ
    wanted = length (h ∷ hosts)

    levels : Groups
    levels = by_level (sort_groups (load_groups nodes))

    chosen : List NodeInfo
    chosen = levels_list levels wanted

    kept : (f : Slot → ℕ) → total f levels ≡ total f (load_groups nodes)
    kept f =
        total-by_level f (sort_groups (load_groups nodes)) ∙ total-sort_groups f (load_groups nodes)

    full : length chosen ≡ wanted
    full = omega (
      arith,
      length-levels_list levels wanted,
      kept (λ g. g.1),
      total-load_groups (λ g. g.1) nodes,
      enough_room nodes wanted enough,
    )

    holds : Holds wanted chosen (place_levels wanted levels (no_slots wanted))
    holds =
        let e : wanted - 0 ≡ wanted = omega arith in
        subst
          (λ n. Holds wanted (levels_list levels n) (place_levels wanted levels (no_slots wanted)))
          e
          (place_levels-Holds wanted levels [] (no_slots wanted) (omega arith)
            (no_slots-Holds wanted))

    none_left : wanted - length chosen ≡ 0
    none_left = omega (arith, full)

    filled : (place_levels wanted levels (no_slots wanted)).result ≡ map some chosen
    filled = holds.entries ∙ rw (none_left, append-nil) refl

-- The least-load batch selection raises exactly when hosts are asked for and the total capacity is short.
pub least_load_batch_raises_iff :
    (nodes : List NodeInfo) (hosts : List String)
    → (batch_node_select nodes hosts ≡ raise worker_unavailable)
      ↔ ((hosts ≢ []) × (short_of_capacity nodes (length hosts) ≡ true))
unfolding batch_node_select
least_load_batch_raises_iff nodes [] = (λ e. cc, λ p. absurd (p.0 refl))
least_load_batch_raises_iff nodes (h ∷ hosts) = (λ e. (λ q. cc, ground arith), λ p. rw p.1)
