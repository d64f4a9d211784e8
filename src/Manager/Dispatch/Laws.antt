-- ===== src/Manager/Dispatch/Laws.antt =====
-- What a dispatch sends, and what it does to the nodes.
pub mod Scheduled
use mathlib.Core.List.{append_assoc}
use linux_net_x.Base.{
  ℕ, zero, suc, String, ◌≡◌, ◌≢◌, refl, sym, subst, ◌∙◌, ◌⊎◌, inl, inr, Bool, true, false, Option,
  none, some, List, [], ◌∷◌, ◌++◌, arith, str_eq, eq_iff, if◌then◌else◌, Bool-cases, Option-cases,
}
use linux_net_x.Nodes.{NodeInfo, Result, ok, raise, worker_unavailable}
use linux_net_x.Redis.{Hash, hget-hdel_ne}
use linux_net_x.Node.{Store, force_delete}
use linux_net_x.Node.Pinning.{hosts_of-owned, hdel_all-frame}
use linux_net_x.Manager.{
  Config, WorkerInfo, JobArgs, no_args, Func, spawn, Job, State, check_worker_alive, make_job,
  assigned_node, host_queue_name, fifo_queue_name,
}
use linux_net_x.Manager.Dispatch.Finding.{
  Finds, Purged, seek_node-Sought, Keyed, SelectsListed, IsUntouched, IsUntouched-refl,
  Purged-IsUntouched,
}
use linux_net_x.Manager.Dispatch.{
  QueueStrategy, fifo, pinned, rounds, find_node, seek_node, on_node, finish, pinned_job,
  dispatch_rpc_job,
}

module _ (HS : Hash String) (HN : Hash NodeInfo) (c : Config) (workers : String → List WorkerInfo)
    (select : List NodeInfo → String → Result NodeInfo) where
  abbrev alive : String → Bool
  alive = check_worker_alive c workers

  abbrev dispatch :
      QueueStrategy → JobArgs → Func → Option String → State HS HN → Result Job × State HS HN
  dispatch = dispatch_rpc_job HS HN c workers select

  -- What becomes of the job when a node is found: the node is the host's, or the one that the
  -- scheduler selects, and its queue has a live worker.
  abbrev pub Sends : JobArgs → Func → String → State HS HN → Result Job × State HS HN → Type 0
  Sends a func host s r =
      (n : NodeInfo) × (alive n.queue ≡ true)
      × Finds HS HN c workers select host r.1.store n
      × (r.0 ≡ ok (make_job c a (host_queue_name host) func))
      × (r.1.jobs ≡ (
          if alive (host_queue_name host)
          then s.jobs ++ make_job c a (host_queue_name host) func ∷ []
          else s.jobs
            ++ make_job c no_args n.queue (spawn (host_queue_name host) host)
              ∷ make_job c a (host_queue_name host) func
              ∷ []))

  on_node-Sends :
      (a : JobArgs) (func : Func) (host : String) (n : NodeInfo) (s : State HS HN)
      → alive n.queue ≡ true
      → Finds HS HN c workers select host s.store n
      → Sends a func host s (on_node HS HN c workers select a func host n s)
  unfolding on_node
  on_node-Sends a func host n s up f = elim (Bool-cases (alive (host_queue_name host))) [
    | inl e ↦ rw e (n, up, f, refl, refl)
    | inr e ↦ rw e (n, up, f, refl, append_assoc s.jobs _ _)
  ]

  finish_cases :
      (a : JobArgs) (func : Func) (host : String) (found : Option NodeInfo) (s : State HS HN)
      → (found ≡ none)
        ⊎ ((n : NodeInfo) × (found ≡ some n)
            × (alive n.queue ≡ true)
            × Finds HS HN c workers select host s.store n)
      → let r = finish HS HN c workers select a func host found s in
        ((r.0 ≡ raise worker_unavailable) × (r.1.jobs ≡ s.jobs)) ⊎ Sends a func host s r
  unfolding finish
  finish_cases a func host none s h = inl (refl, refl)
  finish_cases a func host (some n) s (inl e) = cc
  finish_cases a func host (some n) s (inr (m, e, up, f)) =
      let q : n ≡ m = cc in inr (on_node-Sends a func host n s (rw q up) (rw q f))

  finish-store :
      (a : JobArgs) (func : Func) (host : String) (found : Option NodeInfo) (s : State HS HN)
      → (finish HS HN c workers select a func host found s).1.store ≡ s.store
  unfolding finish on_node
  finish-store a func host none s = refl
  finish-store a func host (some n) s = ground arith

  -- For a host whose name is not empty: a pinned dispatch raises and sends nothing, or it found a
  -- node, the host's own or the scheduler's choice for the store as it is left, whose queue has a
  -- live worker. Then the job is sent to the host's queue, after a `spawn` job for the host on the
  -- node's queue if the host's queue has no live worker. The store has changed only by forced
  -- deletions of nodes that were found in this way and had no live worker.
  pub dispatch-pinned :
      (a : JobArgs) (func : Func) (host : String) (s : State HS HN)
      → host ≢ ""
      → let r = dispatch pinned a func (some host) s in
        (((r.0 ≡ raise worker_unavailable) × (r.1.jobs ≡ s.jobs)) ⊎ Sends a func host s r)
        × Purged HS HN c workers select host s.store r.1.store
  unfolding dispatch_rpc_job pinned_job
  dispatch-pinned a func host s named =
      let e : str_eq host "" ≡ false = ground (arith, eq_iff host "") in
      let r = seek_node HS HN c workers select rounds host s.store in
      let sought = seek_node-Sought HS HN c workers select rounds host s.store in
      rw e (
        finish_cases a func host r.0 (record s { store = r.1 }) sought.ends,
        subst (Purged HS HN c workers select host s.store)
            (sym (finish-store a func host r.0 (record s { store = r.1 }))) sought.purges,
      )

  -- A dispatch deletes dead nodes only: with a scheduler that selects among the nodes it is given,
  -- and records that stand under their own names, a registered node whose queue has a live worker
  -- keeps its record and its hosts.
  pub dispatch_keeps_live_nodes :
      (strategy : QueueStrategy) (a : JobArgs) (func : Func) (host m : String) (info : NodeInfo)
      (s : State HS HN)
      → SelectsListed HS HN c workers select
      → Keyed HS HN c workers select s.store
      → HN.hget s.store.nodes m ≡ some info
      → alive info.queue ≡ true
      → IsUntouched HS HN c workers select m s.store
          (dispatch strategy a func (some host) s).1.store
  unfolding dispatch_rpc_job pinned_job
  dispatch_keeps_live_nodes fifo a func host m info s l k e up =
      elim (Bool-cases (alive fifo_queue_name)) [
        | inl q ↦ rw q (IsUntouched-refl HS HN c workers select m s.store)
        | inr q ↦ rw q (IsUntouched-refl HS HN c workers select m s.store)
      ]
  dispatch_keeps_live_nodes pinned a func host m info s l k e up =
      elim (Bool-cases (str_eq host "")) [
        | inl q ↦ rw q (IsUntouched-refl HS HN c workers select m s.store)
        | inr q ↦
            let r = seek_node HS HN c workers select rounds host s.store in
            rw (q, finish-store a func host r.0 (record s { store = r.1 }))
              (Purged-IsUntouched HS HN c workers select info l k e up
                (seek_node-Sought HS HN c workers select rounds host s.store).purges)
      ]

  ok_of_finish :
      (a : JobArgs) (func : Func) (host : String) (n : NodeInfo) (s : State HS HN)
      → (finish HS HN c workers select a func host (some n) s).0
        ≡ ok (make_job c a (host_queue_name host) func)
  unfolding finish on_node
  ok_of_finish a func host n s = refl

  seek_assigned :
      (left : ℕ) (host : String) (n : NodeInfo) (s : Store HS HN)
      → assigned_node HS HN s host ≡ some n
      → alive n.queue ≡ true
      → seek_node HS HN c workers select (suc left) host s ≡ (some n, s)
  unfolding seek_node find_node
  seek_assigned left host n s assigned up = rw (assigned, seek_node) (rw (up, seek_node) refl)

  -- A pinned job for a named host that is assigned to a node with a live worker is sent to the
  -- host's queue, and no node is deleted.
  pub dispatch_to_assigned :
      (a : JobArgs) (func : Func) (host : String) (n : NodeInfo) (s : State HS HN)
      → host ≢ ""
      → assigned_node HS HN s.store host ≡ some n
      → alive n.queue ≡ true
      → let r = dispatch pinned a func (some host) s in
        (r.0 ≡ ok (make_job c a (host_queue_name host) func)) × (r.1.store ≡ s.store)
  unfolding dispatch_rpc_job pinned_job
  dispatch_to_assigned a func host n s named assigned up =
      let e : str_eq host "" ≡ false = ground (arith, eq_iff host "") in
      let found : seek_node HS HN c workers select rounds host s.store ≡ (some n, s.store) =
        seek_assigned 3 host n s.store assigned up in
      rw (e, found) (ok_of_finish a func host n s, finish-store a func host (some n) s)
