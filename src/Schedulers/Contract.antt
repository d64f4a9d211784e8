-- ===== src/Schedulers/Contract.antt =====
-- What a dispatch needs of a scheduler's `node_select`, and the schedulers that provide it.
use linux_net_x.Base.{ℕ, ◌<◌, String, ◌≡◌, ◌≢◌, inl, inr, List, [], keep, In}
use linux_net_x.Nodes.{NodeInfo, Result, ok, has_room}
use linux_net_x.Schedulers.LeastLoad
use linux_net_x.Schedulers.LeastLoad.Select.{node_select_best}
use linux_net_x.Schedulers.LeastLoadRandom
use linux_net_x.Schedulers.LoadWeightedRandom
use linux_net_x.Schedulers.LoadWeightedRandom.{Numbers}
use linux_net_x.Schedulers.LoadWeightedRandom.Select.{node_select-In}
use linux_net_x.Schedulers.LeastLoadRandom.Select.{IsDraw, node_select-IsLeastLoaded}

-- When a node has room, one with room is selected.
pub record Selection : Type 0 where
  pub node_select : List NodeInfo → String → Result NodeInfo
  pub selects :
      (nodes : List NodeInfo) (host : String)
      → keep has_room nodes ≢ []
      → (n : NodeInfo) × (node_select nodes host ≡ ok n) × In n (keep has_room nodes)

abbrev pub least_load : Selection
least_load = record {
  node_select = LeastLoad.node_select;
  selects = λ nodes host room. elim (node_select_best nodes host) [
    | inl (r, full) ↦ absurd (room full)
    | inr (n, e, m, _) ↦ (n, e, m)
  ];
}

-- The random scheduler selects so whatever is drawn.
abbrev pub least_load_random : (draw : ℕ → ℕ → ℕ) → IsDraw draw → Selection
least_load_random draw drawn = record {
  node_select = LeastLoadRandom.node_select draw;
  selects = λ nodes host room. elim (node_select-IsLeastLoaded draw nodes host drawn) [
    | inl (r, full) ↦ absurd (room full)
    | inr (n, e, best) ↦ (n, e, best.0)
  ];
}

-- So does the load-weighted random scheduler, whatever the weights.
abbrev pub load_weighted_random :
    (F : Numbers) → ((size : ℕ) → 0 < size → F.index size < size) → Selection
load_weighted_random F drawn = record {
  node_select = LoadWeightedRandom.node_select F;
  selects = λ nodes host room. elim (node_select-In F drawn nodes host) [
    | inl (r, full) ↦ absurd (room full)
    | inr (n, e, m) ↦ (n, e, m)
  ];
}
