-- ===== src/Schedulers/Greedy/Laws.antt =====
-- What the greedy scheduler promises.
use linux_net_x.Base.{
  ◌↔◌, ◌≢◌, ℕ, zero, suc, ◌-◌, ◌≤◌, min, String, ◌≡◌, refl, ◌⊎◌, inl, inr, true, false, List, [],
  ◌∷◌, ◌++◌, arith, str_eq, if◌then◌else◌, Bool-cases, sum_of, keep, All, replicate, length,
  sort_by, All-append, All-replicate, All-keep, All-sort_by, sum_of-append, sum_of-replicate,
  sum_of-keep_le, sum_of-sort_by, length-append, length-replicate,
}
use linux_net_x.Nodes.{
  NodeInfo, ok, raise, worker_unavailable, has_room, room, assigned, room_of, short_of_capacity,
  enough_room, IsAssignment,
}
use linux_net_x.Schedulers.Greedy.{node_select, key_le, fill, batch_node_select}

-- The greedy scheduler selects the first node with room, or raises if there is none.
pub node_select_first :
    (nodes : List NodeInfo) (host : String)
    → ((node_select nodes host ≡ raise worker_unavailable) × All (λ n. has_room n ≡ false) nodes)
      ⊎ ((before : List NodeInfo) × (n : NodeInfo) × (after : List NodeInfo) × (node_select nodes
              host
            ≡ ok n)
          × (nodes ≡ before ++ n ∷ after)
          × All (λ m. has_room m ≡ false) before
          × (has_room n ≡ true))
unfolding node_select
node_select_first [] host = inl (refl, tt)
node_select_first (n ∷ nodes) host = elim (Bool-cases (has_room n)) [
  | inl e ↦ inr ([], n, nodes, rw e, refl, tt, e)
  | inr e ↦ elim (node_select_first nodes host) [
    | inl (r, none_has) ↦ inl (rw e r, (e, none_has))
    | inr (before, m, after, r, split, skipped, has) ↦
        inr (n ∷ before, m, after, rw e r, rw split, (e, skipped), has)
  ]
]

length-fill : (nodes : List NodeInfo) (r : ℕ) → length (fill nodes r) ≡ min r (sum_of room nodes)
unfolding fill
length-fill [] r = omega arith
length-fill (n ∷ nodes) zero = omega arith
length-fill (n ∷ nodes) (suc r) =
    let assign = min (room n) (suc r) in
    omega (
      arith,
      length-append (replicate assign n) (fill nodes (suc r - assign)),
      length-replicate assign n,
      length-fill nodes (suc r - assign),
    )

module _ (P : NodeInfo → Type 0) where
  All-fill : (nodes : List NodeInfo) (r : ℕ) → All P nodes → All P (fill nodes r)
  unfolding fill
  All-fill [] r h = tt
  All-fill (n ∷ nodes) zero h = tt
  All-fill (n ∷ nodes) (suc r) h =
      All-append P _ _ (All-replicate P (min (room n) (suc r)) n h.0) (All-fill nodes _ h.1)

assigned-fill :
    (h : String) (nodes : List NodeInfo) (r : ℕ) → assigned h (fill nodes r) ≤ room_of h nodes
unfolding fill
assigned-fill h [] r = omega arith
assigned-fill h (n ∷ nodes) zero = omega arith
assigned-fill h (n ∷ nodes) (suc r) =
    let assign = min (room n) (suc r) in
    let of_h : NodeInfo → ℕ = λ m. if str_eq m.hostname h then 1 else 0 in
    ground (
      arith,
      sum_of-append of_h (replicate assign n) (fill nodes (suc r - assign)),
      sum_of-replicate of_h assign n,
      assigned-fill h nodes (suc r - assign),
    )

-- When the capacity check passes, every host gets a node, and no node more hosts than it has room for.
pub greedy_batch-IsAssignment :
    (nodes : List NodeInfo) (hosts : List String)
    → short_of_capacity nodes (length hosts) ≡ false
    → (chosen : List NodeInfo) × (batch_node_select nodes hosts ≡ ok chosen)
      × IsAssignment nodes (length hosts) chosen
unfolding batch_node_select
greedy_batch-IsAssignment nodes [] enough =
    ([], refl, record { complete = refl; placed = tt; within = λ h. omega arith })
greedy_batch-IsAssignment nodes (h ∷ hosts) enough = (
  fill sorted wanted,
  rw enough,
  record {
    complete = omega (
      arith,
      length-fill sorted wanted,
      sum_of-sort_by room key_le available,
      enough_room nodes wanted enough,
    );
    placed =
        All-fill (λ n. has_room n ≡ true) sorted wanted
          (All-sort_by _ key_le available (All-keep has_room nodes));
    within = λ k. omega (
      arith,
      assigned-fill k sorted wanted,
      sum_of-sort_by (of_name k) key_le available,
      sum_of-keep_le (of_name k) has_room nodes,
    );
  },
)
  where
    available : List NodeInfo
    available = keep has_room nodes

    sorted : List NodeInfo
    sorted = sort_by key_le available

    wanted : ℕ
    wanted = length (h ∷ hosts)

    of_name : String → NodeInfo → ℕ
    of_name k n = if str_eq n.hostname k then room n else 0

-- The greedy batch selection raises exactly when hosts are asked for and the total capacity is short of them.
pub greedy_batch_raises_iff :
    (nodes : List NodeInfo) (hosts : List String)
    → (batch_node_select nodes hosts ≡ raise worker_unavailable)
      ↔ ((hosts ≢ []) × (short_of_capacity nodes (length hosts) ≡ true))
unfolding batch_node_select
greedy_batch_raises_iff nodes [] = (λ e. cc, λ p. absurd (p.0 refl))
greedy_batch_raises_iff nodes (h ∷ hosts) = (λ e. (λ q. cc, ground arith), λ p. rw p.1)
