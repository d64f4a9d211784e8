-- ===== src/Schedulers/LeastLoad/Select.antt =====
-- `LeastLoadScheduler.node_select` returns a best node.
use linux_net_x.Base.{
  ◌<◌, String, ◌≡◌, ◌∙◌, refl, ◌⊎◌, inl, inr, true, false, List, [], ◌∷◌, arith, Bool-cases, keep,
  All, In, All-map, str_lt, str_lt_trans,
}
use linux_net_x.Nodes.{NodeInfo, ok, raise, worker_unavailable, has_room, room}
use text.Mathlib.TextPositions.{compare_refl}
use linux_net_x.Schedulers.LeastLoad.{better, prefer, pick, select_from, node_select}

better_trans : (a b c : NodeInfo) → better a b ≡ true → better b c ≡ true → better a c ≡ true
unfolding better
better_trans a b c h k = ground (arith, str_lt_trans a.hostname b.hostname c.hostname)

-- Whoever is better than the new choice was better than the old one.
worse_stays :
    (m node selected : NodeInfo)
    → better m selected ≡ false
    → better m (prefer node selected) ≡ false
unfolding prefer
worse_stays m node selected h = elim (Bool-cases (better node selected)) [
  | inl e ↦ rw e (elim (Bool-cases (better m node)) [
    | inl b ↦ cc (better_trans m node selected b e)
    | inr b ↦ b
  ])
  | inr e ↦ rw e h
]

better_self : (n : NodeInfo) → better n n ≡ false
unfolding better
better_self n = ground (arith, compare_refl n.hostname)

pick_keeps :
    (m selected : NodeInfo) (nodes : List NodeInfo)
    → better m selected ≡ false
    → better m (pick selected nodes) ≡ false
unfolding pick
pick_keeps m selected [] h = h
pick_keeps m selected (node ∷ nodes) h =
    pick_keeps m (prefer node selected) nodes (worse_stays m node selected h)

took : (node selected : NodeInfo) → better node (prefer node selected) ≡ false
unfolding prefer
took node selected = elim (Bool-cases (better node selected)) [
  | inl e ↦ rw e (better_self node)
  | inr e ↦ rw e e
]

pick_beats :
    (selected : NodeInfo) (nodes : List NodeInfo)
    → All (λ m. better m (pick selected nodes) ≡ false) nodes
unfolding pick
pick_beats selected [] = tt
pick_beats selected (node ∷ nodes) = (
  pick_keeps node (prefer node selected) nodes (took node selected),
  pick_beats (prefer node selected) nodes,
)

prefer_cases :
    (node selected : NodeInfo) → (prefer node selected ≡ node) ⊎ (prefer node selected ≡ selected)
unfolding prefer
prefer_cases node selected = elim (Bool-cases (better node selected)) [
  | inl e ↦ inl (rw e)
  | inr e ↦ inr (rw e)
]

In-pick :
    (selected : NodeInfo) (nodes : List NodeInfo) → In (pick selected nodes) (selected ∷ nodes)
unfolding pick
In-pick selected [] = inl refl
In-pick selected (node ∷ nodes) = elim (In-pick (prefer node selected) nodes) [
  | inl p ↦ elim (prefer_cases node selected) [ inl e ↦ inr (inl (p ∙ e)) | inr e ↦ inl (p ∙ e) ]
  | inr m ↦ inr (inr m)
]

-- `n` is to be taken before `m`: fewer bound hosts, then more room, then the hostname.
abbrev pub Precedes : NodeInfo → NodeInfo → Type 0
Precedes n m =
    (n.count < m.count)
    ⊎ ((n.count ≡ m.count) × (room m < room n))
    ⊎ ((n.count ≡ m.count) × (room n ≡ room m) × (str_lt m.hostname n.hostname ≡ false))

Precedes-of_better : (m n : NodeInfo) → better m n ≡ false → Precedes n m
unfolding better
Precedes-of_better m n h = ground arith

-- The scheduler raises if no node has room, and else takes a node with room that precedes every
-- other such node.
pub node_select_best :
    (nodes : List NodeInfo) (host : String)
    → ((node_select nodes host ≡ raise worker_unavailable) × (keep has_room nodes ≡ []))
      ⊎ ((n : NodeInfo) × (node_select nodes host ≡ ok n)
          × In n (keep has_room nodes)
          × All (Precedes n) (keep has_room nodes))
unfolding node_select
node_select_best nodes host = best_of (keep has_room nodes)
  where
    best_of :
        (available : List NodeInfo)
        → ((select_from available ≡ raise worker_unavailable) × (available ≡ []))
          ⊎ ((n : NodeInfo) × (select_from available ≡ ok n)
              × In n available
              × All (Precedes n) available)
    best_of [] = inl (refl, refl)
    best_of (a ∷ rest) =
        let n = pick a rest in
        inr (
          n,
          refl,
          In-pick a rest,
          (
            Precedes-of_better a n (pick_keeps a a rest (better_self a)),
            All-map _ _ rest (λ m. Precedes-of_better m n) (pick_beats a rest),
          ),
        )
