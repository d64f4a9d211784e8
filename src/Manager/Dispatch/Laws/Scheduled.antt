-- ===== src/Manager/Dispatch/Laws/Scheduled.antt =====
-- A dispatch with a scheduler that keeps its contract.
use linux_net_x.Base.{
  String, ◌≡◌, ◌≢◌, refl, true, false, inr, none, some, List, [], keep, All, All-at,
  All-keep_of_All, str_eq, eq_iff, arith,
}
use linux_net_x.Nodes.{NodeInfo, ok, has_room}
use linux_net_x.Redis.{Hash}
use linux_net_x.Schedulers.Contract.{Selection}
use linux_net_x.Node.{Store}
use linux_net_x.Manager.{
  Config, WorkerInfo, JobArgs, Func, State, check_worker_alive, assigned_node, get_all_nodes,
}
use linux_net_x.Manager.Dispatch.{
  pinned, find_node, seek_node, rounds, dispatch_rpc_job, pinned_job, finish,
}
use linux_net_x.Manager.Dispatch.Laws.{Sends, on_node-Sends, finish-store}

module _ (HS : Hash String) (HN : Hash NodeInfo) (c : Config) (workers : String → List WorkerInfo)
    (scheduler : Selection) where
  abbrev AliveNode : NodeInfo → Type 0
  AliveNode n = check_worker_alive c workers n.queue ≡ true

  seek_scheduled :
      (host : String) (n : NodeInfo) (s : Store HS HN)
      → assigned_node HS HN s host ≡ none
      → scheduler.node_select (get_all_nodes HS HN s) host ≡ ok n
      → AliveNode n
      → seek_node HS HN c workers scheduler.node_select rounds host s ≡ (some n, s)
  unfolding seek_node find_node
  seek_scheduled host n s unassigned selected up =
      rw (unassigned, seek_node) (rw (selected, seek_node) (rw (up, seek_node) refl))

  -- With a scheduler that keeps its contract: a pinned job for a named host that has no node yet is
  -- sent to the host's queue, in the first round and with no change to the store, when some
  -- registered node has room and every registered node has a live worker on its queue. Before it
  -- goes a `spawn` job on the selected node's queue, if the host's queue has no live worker.
  pub dispatch_with_room :
      (a : JobArgs) (func : Func) (host : String) (s : State HS HN)
      → host ≢ ""
      → assigned_node HS HN s.store host ≡ none
      → keep has_room (get_all_nodes HS HN s.store) ≢ []
      → All AliveNode (get_all_nodes HS HN s.store)
      → let r =
          dispatch_rpc_job HS HN c workers scheduler.node_select pinned a func (some host) s in
        Sends HS HN c workers scheduler.node_select a func host s r × (r.1.store ≡ s.store)
  unfolding dispatch_rpc_job pinned_job finish
  dispatch_with_room a func host s named unassigned roomy up =
      let nodes : List NodeInfo = get_all_nodes HS HN s.store in
      let (n, selected, listed) = scheduler.selects nodes host roomy in
      let n_up : AliveNode n =
        All-at AliveNode n (keep has_room nodes) (All-keep_of_All AliveNode has_room nodes up)
          listed in
      let e : str_eq host "" ≡ false = ground (arith, eq_iff host "") in
      rw (e, seek_scheduled host n s.store unassigned selected n_up)
        (
          on_node-Sends HS HN c workers scheduler.node_select a func host n s n_up
              (inr (unassigned, selected)),
          finish-store HS HN c workers scheduler.node_select a func host (some n) s,
        )
