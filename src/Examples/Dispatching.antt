-- ===== src/Examples/Dispatching.antt =====
-- One live node that owns a host, and requests for that host and another one.
use linux_net_x.Base.{
  String, ◌≡◌, ◌≢◌, ◌⊎◌, inl, inr, refl, ap, sym, ◌∙◌, Bool-cases, ◌&&◌, true, false, Option, none,
  some, List, [], ◌∷◌, arith, str_eq, eq_iff, if◌then◌else◌, keep, All,
}
use linux_net_x.Nodes.{NodeInfo, Result, ok, raise, worker_unavailable, has_room}
use linux_net_x.Redis.{Hash}
use linux_net_x.Redis.Table.{table, lookup, scan, without}
use linux_net_x.Manager.{
  Config, WorkerInfo, no_args, execute, State, assigned_node, check_worker_alive, is_alive,
  get_all_nodes,
}
use linux_net_x.Manager.Dispatch.{pinned, dispatch_rpc_job}
use linux_net_x.Manager.Dispatch.Finding.{Purged, Keyed, SelectsListed, IsUntouched}
use linux_net_x.Manager.Dispatch.Laws.{Sends, dispatch-pinned, dispatch_keeps_live_nodes}
use linux_net_x.Detached.{TaskMeta, Registry, get}
use linux_net_x.Manager.Execute.{Execution, launching_meta, execute_on_device}
use linux_net_x.Manager.Execute.Tracking.{is_ok, execute_on_device-get}
use linux_net_x.Schedulers.Contract.{least_load}
use linux_net_x.Manager.Dispatch.Laws.Scheduled.{dispatch_with_room}
use linux_net_x.Manager.Bulk.{bulk_pinned}
use linux_net_x.Manager.Bulk.Coverage.{Covered, Queued, bulk_covers}

abbrev pub Names : Hash String
Names = table

abbrev pub Infos : Hash NodeInfo
Infos = table

abbrev pub n1 : NodeInfo
n1 = record { hostname = "n1"; count = 1; capacity = 3; queue = "NodeQ_n1" }

abbrev host : String
host = "h"

abbrev pub config : Config
config = record { job_timeout = 300; job_result_ttl = 300; job_ttl = 600; worker_ttl = 300 }

abbrev fresh_worker : WorkerInfo
fresh_worker = record { dead = false; heartbeat_age = some 1_000_000; busy = false }

-- Every queue has a live worker.
abbrev pub workers : String → List WorkerInfo
workers q_name = fresh_worker ∷ []

abbrev pub choose : List NodeInfo → String → Result NodeInfo
choose [] h = raise worker_unavailable
choose (n ∷ nodes) h = ok n

abbrev choose_all : List NodeInfo → List String → Result (List (Option NodeInfo))
choose_all nodes [] = ok []
choose_all [] (h ∷ hosts) = raise worker_unavailable
choose_all (n ∷ nodes) (h ∷ hosts) = ok (some n ∷ none ∷ [])

abbrev pub state : State Names Infos
state = record {
  store = record { hosts = (host, "n1") ∷ []; nodes = ("n1", n1) ∷ []; shutdowns = [] };
  jobs = [];
}

host_is_named : host ≢ ""
host_is_named e = ground (arith, (eq_iff host "").1 e)

pub n1_owns_host : assigned_node Names Infos state.store host ≡ some n1
unfolding assigned_node lookup
n1_owns_host = refl

pub queue_is_alive : (q : String) → check_worker_alive config workers q ≡ true
unfolding check_worker_alive is_alive
queue_is_alive q = refl

dispatch-pinned_example :
    let r =
      dispatch_rpc_job Names Infos config workers choose pinned no_args
        (execute 0)
        (some host)
        state in
    (((r.0 ≡ raise worker_unavailable) × (r.1.jobs ≡ state.jobs))
      ⊎ Sends Names Infos config workers choose no_args (execute 0) host state r)
    × Purged Names Infos config workers choose host state.store r.1.store
dispatch-pinned_example =
    dispatch-pinned Names Infos config workers choose no_args (execute 0) host state host_is_named

choose_listed : SelectsListed Names Infos config workers choose
choose_listed [] h n e = cc
choose_listed (m ∷ nodes) h n e = inl cc

state-Keyed : Keyed Names Infos config workers choose state.store
unfolding lookup
state-Keyed k n e = elim (Bool-cases (str_eq "n1" k)) [
  | inl q ↦
      let f : some n1 ≡ some n = rw (q, lookup) at e in
      let same : n1 ≡ n = cc in ap (λ (x : NodeInfo). x.hostname) (sym same) ∙ (eq_iff "n1" k).0 q
  | inr q ↦ let f : none ≡ some n = rw (q, lookup) at e in cc
]

n1_is_registered : Infos.hget state.store.nodes "n1" ≡ some n1
unfolding lookup
n1_is_registered = refl

dispatch_keeps_live_nodes_example :
    IsUntouched Names Infos config workers choose "n1" state.store
      (dispatch_rpc_job Names Infos config workers choose pinned no_args
        (execute 0)
        (some "g")
        state).1.store
dispatch_keeps_live_nodes_example =
    dispatch_keeps_live_nodes Names Infos config workers choose pinned no_args (execute 0) "g" "n1"
      n1 state choose_listed state-Keyed n1_is_registered (queue_is_alive "NodeQ_n1")

abbrev batch : List String
batch = host ∷ "g" ∷ "k" ∷ []

bulk_covers_example :
    let r = bulk_pinned Names Infos config workers choose_all no_args execute batch state in
    Covered Names Infos config workers choose_all no_args execute r.0 r.1 0 batch
    × Queued Names Infos config workers choose_all state r.0 r.2
bulk_covers_example = bulk_covers Names Infos config workers choose_all no_args execute batch state

abbrev Metas : Hash TaskMeta
Metas = table

abbrev detached : Execution
detached = record {
  host = "h";
  queue_strategy = some pinned;
  detach = true;
  webhook = false;
  file_transfer = false;
  ttl = none;
  execution_timeout = some 60;
  result_ttl = none;
  push_interval = some 5;
}

abbrev no_tasks : Registry Metas
no_tasks = record { table = []; audits = [] }

execute_on_device-get_example :
    let r =
      execute_on_device Names Infos Metas config workers choose false "t1" 7 detached state
        no_tasks in
    get Metas "t1" r.2 ≡ (
      if is_ok r.0 && true && str_eq "t1" "t1"
      then some (launching_meta 7 detached)
      else get Metas "t1" no_tasks)
execute_on_device-get_example =
    execute_on_device-get Names Infos Metas config workers choose false "t1" "t1" 7 detached state
      no_tasks

g_is_named : ◌≢◌ {A = String} "g" ""
g_is_named e = ground (arith, (eq_iff "g" "").1 e)

g_has_no_node : assigned_node Names Infos state.store "g" ≡ none
unfolding assigned_node lookup
g_has_no_node = refl

some_room : keep has_room (get_all_nodes Names Infos state.store) ≢ []
unfolding get_all_nodes scan without
some_room e = cc

nodes_are_alive :
    All
      (λ n. check_worker_alive config workers n.queue ≡ true)
      (get_all_nodes Names Infos state.store)
unfolding get_all_nodes scan without
nodes_are_alive = (queue_is_alive "NodeQ_n1", tt)

dispatch_with_room_example :
    let r =
      dispatch_rpc_job Names Infos config workers least_load.node_select pinned no_args
        (execute 0)
        (some "g")
        state in
    Sends Names Infos config workers least_load.node_select no_args (execute 0) "g" state r
    × (r.1.store ≡ state.store)
dispatch_with_room_example =
    dispatch_with_room Names Infos config workers least_load no_args (execute 0) "g" state
      g_is_named g_has_no_node some_room nodes_are_alive
