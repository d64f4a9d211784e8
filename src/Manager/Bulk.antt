-- ===== src/Manager/Bulk.antt =====
-- `Manager.dispatch_bulk_rpc_jobs` (linux_net/services/manager.py), under the assumptions of
-- `Dispatch`; Redis does not fail.
pub mod Coverage
use linux_net_x.Base.{
  ℕ, zero, suc, ◌+◌, String, Bool, true, false, not, Option, none, some, List, [], ◌∷◌, ◌++◌, map,
  any_of, keep, str_eq, if◌then◌else◌,
}
use linux_net_x.Nodes.{NodeInfo, Error, Result, ok, raise, worker_unavailable, index_error}
use linux_net_x.Redis.{Hash}
use linux_net_x.Node.{Store, force_delete}
use linux_net_x.Manager.{
  Config, WorkerInfo, JobArgs, Func, Job, State, check_worker_alive, make_job, send_batch_jobs,
  try_launch_pinned_worker, assigned_node, get_all_nodes, host_queue_name, fifo_queue_name,
}
use linux_net_x.Manager.Dispatch.{QueueStrategy, fifo, pinned}

-- `BatchFailedItem.reason`
pub data Reason : Type 0 where
  no_capacity : Reason
  node_dead : String → Reason
  failed_with : Error → Reason

-- `BatchFailedItem`
pub record FailedItem : Type 0 where
  pub host : String
  pub reason : Reason

-- An index of the request list, with the host there.
abbrev pub Entry : Type 0
Entry = ℕ × String

-- `any(f.host == host for f in failed_hosts)`
abbrev pub is_failed : String → List FailedItem → Bool
is_failed host = any_of (λ f. str_eq f.host host)

-- The first loop over `selected_nodes`: hosts with no node, and the groups, which each hold the one
-- host of their index; `none` as the third part stands for an index out of range.
select_loop : List Entry → List (Option NodeInfo) → List FailedItem × List (NodeInfo × Entry) × Bool
select_loop entries [] = ([], [], true)
select_loop [] (n ∷ selected) = ([], [], false)
select_loop ((i, h) ∷ entries) (none ∷ selected) =
    let r = select_loop entries selected in
    (record { host = h; reason = no_capacity } ∷ r.0, r.1, r.2)
select_loop ((i, h) ∷ entries) (some n ∷ selected) =
    let r = select_loop entries selected in (r.0, (n, (i, h)) ∷ r.1, r.2)

-- `except Exception as e`: each unassigned host that has not failed yet fails with `e`.
fail_rest : Error → List Entry → List FailedItem → List FailedItem
fail_rest e [] failed = failed
fail_rest e ((i, h) ∷ entries) failed = fail_rest e entries (
    if is_failed h failed
    then failed
    else failed ++ record { host = h; reason = failed_with e } ∷ [])

module _ (HS : Hash String) (HN : Hash NodeInfo) (c : Config) (workers : String → List WorkerInfo)
    (select : List NodeInfo → List String → Result (List (Option NodeInfo))) where
  -- The indices with a node, and those without.
  assigned_entries : ℕ → List String → Store HS HN → List Entry
  assigned_entries i [] s = []
  assigned_entries i (h ∷ hosts) s =
      let rest = assigned_entries (i + 1) hosts s in
      elim (assigned_node HS HN s h) [ none ↦ rest | some n ↦ (i, h) ∷ rest ]

  unassigned_entries : ℕ → List String → Store HS HN → List Entry
  unassigned_entries i [] s = []
  unassigned_entries i (h ∷ hosts) s =
      let rest = unassigned_entries (i + 1) hosts s in
      elim (assigned_node HS HN s h) [ none ↦ (i, h) ∷ rest | some n ↦ rest ]

  -- The loop over `node_group`: a dead node is deleted and its host fails; a live one is asked to
  -- start a worker.
  launch_loop :
      List (NodeInfo × Entry) → List FailedItem → State HS HN → List FailedItem × State HS HN
  launch_loop [] failed s = (failed, s)
  launch_loop ((n, e) ∷ groups) failed s = elim (check_worker_alive c workers n.queue) [
    | true ↦ launch_loop groups failed (try_launch_pinned_worker HS HN c (e.1 ∷ []) n s)
    | false ↦
        launch_loop groups (failed ++ record { host = e.1; reason = node_dead n.hostname } ∷ [])
          (record s { store = force_delete HS HN n.hostname s.store })
  ]

  place : List Entry → Result (List (Option NodeInfo)) → State HS HN → List FailedItem × State HS HN
  unfolding select_loop fail_rest launch_loop
  place entries (raise e) s = (fail_rest e entries [], s)
  place entries (ok []) s = (fail_rest worker_unavailable entries [], s)
  place entries (ok (n ∷ selected)) s =
      let r = select_loop entries (n ∷ selected) in
      if r.2 then launch_loop r.1 r.0 s else (fail_rest index_error entries r.0, s)

  schedule : List Entry → State HS HN → List FailedItem × State HS HN
  unfolding place
  schedule [] s = ([], s)
  schedule (e ∷ entries) s =
      place (e ∷ entries) (select (get_all_nodes HS HN s.store) (map (λ x. x.1) (e ∷ entries))) s

  -- One job for each index that is ready.
  abbrev pub ready_job : JobArgs → (ℕ → Func) → Entry → Job
  ready_job a func e = make_job c a (host_queue_name e.1) (func e.0)

  pub bulk_pinned :
      JobArgs → (ℕ → Func) → List String → State HS HN → List Job × List FailedItem × State HS HN
  unfolding schedule assigned_entries unassigned_entries
  bulk_pinned a func hosts s =
      let unassigned = unassigned_entries 0 hosts s.store in
      let r = schedule unassigned s in
      let ready =
        assigned_entries 0 hosts s.store ++ keep (λ e. not (is_failed e.1 r.0)) unassigned in
      let sent = map (ready_job a func) ready in (sent, r.0, record r.1 { jobs = r.1.jobs ++ sent })

  -- `[func] * len(conn_args)` on the FIFO queue, in one batch.
  batch_funcs : ℕ → (ℕ → Func) → List String → List Func
  batch_funcs i func [] = []
  batch_funcs i func (h ∷ hosts) = func i ∷ batch_funcs (i + 1) func hosts

  pub dispatch_bulk_rpc_jobs :
      QueueStrategy
      → JobArgs
      → (ℕ → Func)
      → List String
      → State HS HN
      → Result (List Job × List FailedItem) × State HS HN
  unfolding bulk_pinned batch_funcs send_batch_jobs
  dispatch_bulk_rpc_jobs fifo a func hosts s =
      if check_worker_alive c workers fifo_queue_name
      then (let r = send_batch_jobs HS HN c a fifo_queue_name (batch_funcs 0 func hosts) s in
          (ok (r.0, []), r.1))
      else (raise worker_unavailable, s)
  dispatch_bulk_rpc_jobs pinned a func hosts s =
      let r = bulk_pinned a func hosts s in (ok (r.0, r.1), r.2)
