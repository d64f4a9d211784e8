-- ===== src/Schedulers/LeastLoadRandom/Batch.antt =====
-- What the random batch selection places, and what it leaves unplaced.
use mathlib.Core.List.{append_assoc, append-nil}
use linux_net_x.Base.{
  ℕ, zero, suc, ◌+◌, ◌-◌, ◌≤◌, min, String, ◌≡◌, refl, ap, inl, inr, Bool, true, false, List,
  Option, none, some, [], ◌∷◌, ◌++◌, arith, map, leb, ◌==◌, str_eq, if◌then◌else◌, Bool-cases,
  sum_of, keep, All, length, replicate, All-append, sum_of-append, sum_of-keep_le, length-append,
  get_elem?, set, drop_at, get_elem?-lt, All-get_elem?, All-set, All-drop_at, length-set,
  length-drop_at, sum_of-set, sum_of-drop_at, All-keep_of_All, All-map,
}
use linux_net_x.Nodes.{NodeInfo, ok, has_room, room, assigned, room_of, short_of_capacity}
use linux_net_x.Schedulers.Groups.{Slot, Groups, Slots, no_slots, load_groups, by_level, write}
use linux_net_x.Schedulers.Groups.Facts.{
  total, Fits, AllFit, total-load_groups, total-by_level, sum_of-by_level, load_groups-AllFit,
  by_level-AllFit,
}
use linux_net_x.Schedulers.Groups.Writes.{Holds, no_slots-Holds, write-Holds}
use linux_net_x.Schedulers.LeastLoadRandom.{
  max_of, distribute, place_level, place_levels, batch_node_select,
}
use linux_net_x.Schedulers.LeastLoadRandom.Select.{IsDraw}

abbrev of_name : String → Slot → ℕ
of_name h s = if str_eq s.0.hostname h then s.1 else 0

abbrev HasRoom : Slot → Type 0
HasRoom s = has_room s.0 ≡ true

-- `more` follows `done` in the array: as many as were to be placed, on nodes that `slots` lists,
-- each within its room.
record Placed (host_count : ℕ) (done : List NodeInfo) (slots : ℕ) (room_at : String → ℕ) (s : Slots)
    : Type 0 where
  more : List NodeInfo
  holds : Holds host_count (done ++ more) s
  count : length more ≡ slots
  placed : All (λ n. has_room n ≡ true) more
  within : (h : String) → assigned h more ≤ room_at h

module _ (draw : ℕ → ℕ → ℕ) (host_count : ℕ) where
  -- With this much fuel, and room for what is left, the loop ends and places all of it.
  abbrev Finishes : ℕ → Type 0
  Finishes fuel =
      (k : ℕ) (best : List Slot) (left : ℕ) (done : List NodeInfo) (s : Slots)
      → left + length best ≤ fuel
      → left ≤ sum_of (λ g. g.1) best
      → length done + left ≤ host_count
      → All HasRoom best
      → Holds host_count done s
      → (k' : ℕ) × (s' : Slots) × (distribute draw fuel k best left s ≡ some (k', s'))
        × Placed host_count done left (λ h. sum_of (of_name h) best) s'

  round-Finishes :
      (fuel k : ℕ) (best : List Slot) (left : ℕ) (done : List NodeInfo) (s : Slots) (slot : Slot)
      → Finishes fuel
      → get_elem? best (draw k (length best)) ≡ some slot
      → suc left + length best ≤ suc fuel
      → suc left ≤ sum_of (λ g. g.1) best
      → length done + suc left ≤ host_count
      → All HasRoom best
      → Holds host_count done s
      → (k' : ℕ) × (s' : Slots) × (distribute draw (suc fuel) k best (suc left) s ≡ some (k', s'))
        × Placed host_count done (suc left) (λ h. sum_of (of_name h) best) s'
  unfolding distribute
  round-Finishes fuel k best left done s (node, zero) ih hit f r c fit h =
      let i : ℕ = draw k (length best) in
      let (k', s', e, p) =
        ih (k + 1) (drop_at best i) (suc left) done s
          (omega (arith, length-drop_at best i (node, 0) hit))
          (omega (arith, sum_of-drop_at (λ (g : Slot). g.1) best i (node, 0) hit)) c
          (All-drop_at HasRoom best i fit) h in
      (
        k',
        s',
        rw (hit, distribute) e,
        record {
          more = p.more;
          holds = p.holds;
          count = p.count;
          placed = p.placed;
          within = λ n. omega (arith, p.within n, sum_of-drop_at (of_name n) best i (node, 0) hit);
        },
      )
  round-Finishes fuel k best left done s (node, suc r') ih hit f r c fit h =
      let i : ℕ = draw k (length best) in
      let (k', s', e, p) =
        ih (k + 1) (set best i (node, r')) left (done ++ node ∷ []) (write node s)
          (omega (arith, length-set best i (node, r')))
          (omega (arith, sum_of-set (λ (g : Slot). g.1) best i (node, suc r') (node, r') hit))
          (omega (arith, length-append done (node ∷ [])))
          (All-set HasRoom best i (node, r') (All-get_elem? HasRoom best i (node, suc r') hit fit)
            fit)
          (write-Holds host_count node done s (omega arith) h) in
      (
        k',
        s',
        rw (hit, distribute) e,
        record {
          more = node ∷ p.more;
          holds = rw append_assoc at p.holds;
          count = ap suc p.count;
          placed = (All-get_elem? HasRoom best i (node, suc r') hit fit, p.placed);
          within = λ n.
              ground
                (arith, p.within n, sum_of-set (of_name n) best i (node, suc r') (node, r') hit);
        },
      )

module _ (draw : ℕ → ℕ → ℕ) (drawn : IsDraw draw) (host_count : ℕ) where
  distribute-Finishes : (fuel : ℕ) → Finishes draw host_count fuel
  unfolding distribute
  distribute-Finishes fuel k best zero done s f r c fit h = (
    k,
    s,
    refl,
    record {
      more = [];
      holds = rw append-nil h;
      count = refl;
      placed = tt;
      within = λ n. omega arith;
    },
  )
  distribute-Finishes zero k best (suc left) done s f r c fit h = absurd (omega arith)
  distribute-Finishes (suc fuel) k [] (suc left) done s f r c fit h = absurd (omega arith)
  distribute-Finishes (suc fuel) k (b ∷ best) (suc left) done s f r c fit h =
      let (slot, hit) =
        get_elem?-lt (b ∷ best) (draw k (length (b ∷ best))) (drawn k _ (omega arith)) in
      round-Finishes draw host_count fuel k (b ∷ best) left done s slot (distribute-Finishes fuel)
        hit f r c fit h

abbrev has_most : Slot → List Slot → Slot → Bool
has_most g group x = x.1 == max_of (λ y. y.1) g group

-- The room at one level of the nodes that have the most room there: the loop uses no others.
pub level_room : List Slot → ℕ
level_room [] = 0
level_room (g ∷ group) = sum_of (λ x. x.1) (keep (has_most g group) (g ∷ group))

-- The hosts that the levels can take, of `left` hosts.
abbrev pub reach : Groups → ℕ
reach = sum_of (λ g. level_room g.1)

module _ (draw : ℕ → ℕ → ℕ) (drawn : IsDraw draw) (host_count : ℕ) where
  place_level-Placed :
      (k : ℕ) (group : List Slot) (done : List NodeInfo) (s : Slots)
      → length done ≤ host_count
      → All Fits group
      → Holds host_count done s
      → (k' : ℕ) × (s' : Slots) × (place_level draw host_count k group s ≡ some (k', s'))
        × Placed host_count done
            (min (level_room group) (host_count - length done))
            (λ h. sum_of (of_name h) group)
            s'
  unfolding level_room place_level
  place_level-Placed k [] done s c fit h = (
    k,
    s,
    refl,
    record {
      more = [];
      holds = rw append-nil h;
      count = omega arith;
      placed = tt;
      within = λ n. omega arith;
    },
  )
  place_level-Placed k (g ∷ group) done s c fit h =
      let best : List Slot = keep (has_most g group) (g ∷ group) in
      let n : ℕ = min (sum_of (λ x. x.1) best) (host_count - s.host_index) in
      let (k', s', e, p) =
        distribute-Finishes draw drawn host_count (n + length best) k best n done s (omega arith)
          (omega arith) (omega (arith, h.index))
          (All-keep_of_All HasRoom (has_most g group) (g ∷ group)
            (All-map Fits HasRoom (g ∷ group) (λ x f. f.0) fit))
          h in
      (
        k',
        s',
        e,
        record {
          more = p.more;
          holds = p.holds;
          count = omega (arith, p.count, h.index);
          placed = p.placed;
          within = λ m.
              omega (arith, p.within m, sum_of-keep_le (of_name m) (has_most g group) (g ∷ group));
        },
      )

  place_levels-Placed :
      (k : ℕ) (groups : Groups) (done : List NodeInfo) (s : Slots)
      → length done ≤ host_count
      → AllFit groups
      → Holds host_count done s
      → (s' : Slots) × (place_levels draw host_count k groups s ≡ some s')
        × Placed host_count done
            (min (host_count - length done) (reach groups))
            (λ h. total (of_name h) groups)
            s'
  unfolding place_levels
  place_levels-Placed k [] done s c fit h = (
    s,
    refl,
    record {
      more = [];
      holds = rw append-nil h;
      count = omega arith;
      placed = tt;
      within = λ n. omega arith;
    },
  )
  place_levels-Placed k ((count, group) ∷ groups) done s c fit h =
      elim (Bool-cases (leb host_count s.host_index)) [
        | inl full ↦ (
          s,
          rw (full, place_levels) refl,
          record {
            more = [];
            holds = rw append-nil h;
            count = ground (arith, h.index);
            placed = tt;
            within = λ n. omega arith;
          },
        )
        | inr more ↦
            let (k', s', e, p) = place_level-Placed k group done s c fit.0 h in
            let done' : List NodeInfo = done ++ p.more in
            let longer : length done' ≡ length done + length p.more = length-append done p.more in
            let (s'', e', q) =
              place_levels-Placed k' groups done' s' (omega (arith, longer, p.count)) fit.1
                p.holds in
            (
              s'',
              rw (more, place_levels) (rw (e, place_levels) e'),
              record {
                more = p.more ++ q.more;
                holds = rw append_assoc at q.holds;
                count = omega (arith, length-append p.more q.more, p.count, q.count, longer);
                placed = All-append _ p.more q.more p.placed q.placed;
                within = λ n. omega (
                  arith,
                  sum_of-append (λ (x : NodeInfo). if str_eq x.hostname n then 1 else 0) p.more
                      q.more,
                  p.within n,
                  q.within n,
                );
              },
            )
      ]

batch-eq :
    (draw : ℕ → ℕ → ℕ) (nodes : List NodeInfo) (h : String) (hosts : List String) (s : Slots)
    (r : List (Option NodeInfo))
    → short_of_capacity nodes (length (h ∷ hosts)) ≡ false
    → place_levels draw
        (length (h ∷ hosts))
        0
        (by_level (load_groups nodes))
        (no_slots (length (h ∷ hosts)))
      ≡ some s
    → s.result ≡ r
    → batch_node_select draw nodes (h ∷ hosts) ≡ some (ok r)
unfolding batch_node_select
batch-eq draw nodes h hosts s r enough e same =
    rw (enough, e, batch_node_select) (ap (λ x. some (ok x)) same)

-- When the capacity check passes, whatever is drawn, the loop ends, and the result lists nodes with
-- room, none above its room, and then `None`. The number of nodes is that of the hosts, or the
-- room of the best nodes of the levels, if that is less: the room of other nodes is never used.
pub batch_placement :
    (draw : ℕ → ℕ → ℕ) (nodes : List NodeInfo) (hosts : List String)
    → IsDraw draw
    → short_of_capacity nodes (length hosts) ≡ false
    → (chosen : List NodeInfo) × (batch_node_select draw nodes hosts
        ≡ some (ok (map some chosen ++ replicate (length hosts - length chosen) none)))
      × (length chosen ≡ min (length hosts) (reach (load_groups nodes)))
      × All (λ n. has_room n ≡ true) chosen
      × ((h : String) → assigned h chosen ≤ room_of h nodes)
unfolding batch_node_select
batch_placement draw nodes [] drawn enough = ([], refl, omega arith, tt, λ h. omega arith)
batch_placement draw nodes (h ∷ hosts) drawn enough =
    let wanted : ℕ = length (h ∷ hosts) in
    let levels : Groups = by_level (load_groups nodes) in
    let (s', e, p) =
      place_levels-Placed draw drawn wanted 0 levels [] (no_slots wanted) (omega arith)
        (by_level-AllFit _ (load_groups-AllFit nodes)) (no_slots-Holds wanted) in
    (
      p.more,
      batch-eq draw nodes h hosts s' _ enough e p.holds.entries,
      omega (arith, p.count, sum_of-by_level (λ g. level_room g.1) (load_groups nodes)),
      p.placed,
      λ n. omega (
        arith,
        p.within n,
        total-by_level (of_name n) (load_groups nodes),
        total-load_groups (of_name n) nodes,
        sum_of-keep_le (λ (m : NodeInfo). if str_eq m.hostname n then room m else 0) has_room nodes,
      ),
    )
