-- ===== src/Manager/Dispatch.antt =====
-- `Manager.dispatch_rpc_job` (linux_net/services/manager.py). The calls of one dispatch see one
-- snapshot of the workers, and no other process writes to Redis between them.
pub mod Finding
pub mod Laws
use linux_net_x.Base.{
  ℕ, zero, suc, String, Bool, true, false, Option, none, some, List, [], ◌∷◌, str_eq, if◌then◌else◌,
}
use linux_net_x.Nodes.{NodeInfo, Error, Result, ok, raise, worker_unavailable, assertion}
use linux_net_x.Redis.{Hash}
use linux_net_x.Node.{Store, force_delete}
use linux_net_x.Manager.{
  Config, WorkerInfo, JobArgs, Func, Job, State, check_worker_alive, send_job,
  try_launch_pinned_worker, assigned_node, get_all_nodes, host_queue_name, fifo_queue_name,
}

pub data QueueStrategy : Type 0 where
  fifo pinned : QueueStrategy

-- The retry loop makes at most `MAX_RETRIES + 1` rounds.
abbrev pub rounds : ℕ
rounds = 4

module _ (HS : Hash String) (HN : Hash NodeInfo) (c : Config) (workers : String → List WorkerInfo)
    (select : List NodeInfo → String → Result NodeInfo) where
  -- An assigned node, or one that the scheduler selects; an exception of the scheduler is caught.
  find_node : String → Store HS HN → Option NodeInfo
  find_node host s = elim (assigned_node HS HN s host) [
    | some n ↦ some n
    | none ↦ elim (select (get_all_nodes HS HN s) host) [ ok n ↦ some n | raise e ↦ none ]
  ]

  -- The `while cnt <= MAX_RETRIES` loop, by the rounds that are left.
  pub seek_node : ℕ → String → Store HS HN → Option NodeInfo × Store HS HN
  unfolding find_node
  seek_node zero host s = (none, s)
  seek_node (suc left) host s = elim (find_node host s) [
    | none ↦ seek_node left host s
    | some node ↦ elim (check_worker_alive c workers node.queue) [
      | true ↦ (some node, s)
      | false ↦ seek_node left host (force_delete HS HN node.hostname s)
    ]
  ]

  -- A host with no worker gets a `spawn` job on its node, before its own job.
  on_node : JobArgs → Func → String → NodeInfo → State HS HN → Result Job × State HS HN
  unfolding send_job try_launch_pinned_worker
  on_node a func host node s =
      let q_name = host_queue_name host in
      let launched =
        if check_worker_alive c workers q_name
        then s
        else try_launch_pinned_worker HS HN c (host ∷ []) node s in
      let r = send_job HS HN c a q_name func launched in (ok r.0, r.1)

  finish : JobArgs → Func → String → Option NodeInfo → State HS HN → Result Job × State HS HN
  finish a func host none s = (raise worker_unavailable, s)
  finish a func host (some node) s = on_node a func host node s

  pinned_job : JobArgs → Func → String → State HS HN → Result Job × State HS HN
  pinned_job a func host s =
      let r = seek_node rounds host s.store in finish a func host r.0 (record s { store = r.1 })

  pub dispatch_rpc_job :
      QueueStrategy → JobArgs → Func → Option String → State HS HN → Result Job × State HS HN
  unfolding send_job
  dispatch_rpc_job fifo a func host s =
      if check_worker_alive c workers fifo_queue_name
      then (let r = send_job HS HN c a fifo_queue_name func s in (ok r.0, r.1))
      else (raise worker_unavailable, s)
  dispatch_rpc_job pinned a func none s = (raise assertion, s)
  dispatch_rpc_job pinned a func (some host) s =
      if str_eq host "" then (raise assertion, s) else pinned_job a func host s
