-- ===== src/Manager.antt =====
-- linux_net/services/manager.py: the controller's state, the liveness of workers, the lookup of
-- nodes, and the sending of jobs. Redis Queue (`rq`) is a parameter: `workers` lists what
-- `Worker.all` returns for a queue, and an enqueued job is an entry of `jobs`.
pub mod Listing
pub mod Dispatch
pub mod Bulk
pub mod Execute
pub mod Jobs
use linux_net_x.Base.{
  ℕ, ◌+◌, ◌*◌, ◌≡◌, String, Bool, true, false, not, ◌||◌, Option, none, some, List, [], ◌∷◌, ◌++◌,
  map, any_of, keep, leb, ltb, str_eq, if◌then◌else◌, length, replicate, set, text_append, ◌==◌,
}
use linux_net_x.Nodes.{NodeInfo}
use linux_net_x.Redis.{Hash}
use linux_net_x.Node.{Store}

-- `get_host_queue_name`, `get_node_queue_name`, `get_fifo_queue_name` (linux_net/utils/config.py)
pub host_queue_name : String → String
host_queue_name host = text_append "HostQ_" host

pub node_queue_name : String → String
node_queue_name node = text_append "NodeQ_" node

pub fifo_queue_name : String
fifo_queue_name = "FifoQ"

-- What the controller reads of an `rq` worker. An age is in microseconds, the resolution of
-- `timedelta`, and `none` stands for a worker that never sent a heartbeat.
pub record WorkerInfo : Type 0 where
  pub dead : Bool
  pub heartbeat_age : Option ℕ
  pub busy : Bool

-- `Manager.job_timeout`, `job_result_ttl`, `job_ttl`, `worker_ttl`
pub record Config : Type 0 where
  pub job_timeout : ℕ
  pub job_result_ttl : ℕ
  pub job_ttl : ℕ
  pub worker_ttl : ℕ

abbrev pub max_of_two : ℕ → ℕ → ℕ
max_of_two a b = if ltb a b then b else a

age_alive : Config → Bool → ℕ → Bool
age_alive c busy age =
    if busy
    then leb age ((max_of_two c.job_timeout c.worker_ttl + 5) * 1_000_000)
    else leb age ((c.worker_ttl + 5) * 1_000_000)

-- `is_alive` inside `_check_worker_alive`
unfoldable pub is_alive : Config → WorkerInfo → Bool
unfolding age_alive
is_alive c w =
    if w.dead
    then false
    else elim w.heartbeat_age [ none ↦ false | some age ↦ age_alive c w.busy age ]

-- `_check_worker_alive`
unfoldable pub check_worker_alive : Config → (String → List WorkerInfo) → String → Bool
unfolding is_alive
check_worker_alive c workers q_name = any_of (is_alive c) (workers q_name)

pub data Func : Type 0 where
  execute : (request : ℕ) → Func
  manage_detached_task : Func
  spawn : (q_name host : String) → Func

pub data Callback : Type 0 where
  rpc_exception_callback rpc_webhook_callback : Callback

pub record Job : Type 0 where
  pub queue : String
  pub func : Func
  pub timeout : ℕ
  pub ttl : ℕ
  pub result_ttl : ℕ
  pub failure_ttl : ℕ
  pub on_success : Option Callback
  pub on_failure : Callback

-- The optional arguments of `_send_job`.
pub record JobArgs : Type 0 where
  pub ttl : Option ℕ
  pub timeout : Option ℕ
  pub result_ttl : Option ℕ
  pub on_success : Option Callback
  pub on_failure : Option Callback

abbrev pub no_args : JobArgs
no_args = record {
  ttl = none;
  timeout = none;
  result_ttl = none;
  on_success = none;
  on_failure = none;
}

-- `x if x is not None else d`
abbrev pub or_default {ℓ} : {A : Type ℓ} → Option A → A → A
or_default none d = d
or_default (some x) d = x

-- `x if x else d`: 0 is false too.
abbrev pub or_falsy : Option ℕ → ℕ → ℕ
or_falsy none d = d
or_falsy (some x) d = if x == 0 then d else x

-- The job that `_send_job` and, for each entry, `_send_batch_jobs` put on a queue.
unfoldable pub make_job : Config → JobArgs → String → Func → Job
make_job c a q_name func = record {
  queue = q_name;
  func = func;
  timeout = or_default a.timeout c.job_timeout;
  ttl = or_falsy a.ttl c.job_ttl;
  result_ttl = or_default a.result_ttl c.job_result_ttl;
  failure_ttl = or_default a.result_ttl c.job_result_ttl;
  on_success = a.on_success;
  on_failure = or_default a.on_failure rpc_exception_callback;
}

module _ (HS : Hash String) (HN : Hash NodeInfo) where
  pub record State : Type 0 where
    pub store : Store HS HN
    pub jobs : List Job

  unfoldable pub send_job : Config → JobArgs → String → Func → State → Job × State
  unfolding make_job
  send_job c a q_name func s =
      let job = make_job c a q_name func in (job, record s { jobs = s.jobs ++ job ∷ [] })

  -- `_send_batch_jobs`: one job for each function, with the same arguments.
  unfoldable pub send_batch_jobs : Config → JobArgs → String → List Func → State → List Job × State
  unfolding make_job
  send_batch_jobs c a q_name funcs s =
      let batch = map (make_job c a q_name) funcs in (batch, record s { jobs = s.jobs ++ batch })

  -- `_try_launch_pinned_worker`, for a list of hosts: a `spawn` job for each on the node's queue.
  unfoldable pub try_launch_pinned_worker : Config → List String → NodeInfo → State → State
  unfolding send_batch_jobs
  try_launch_pinned_worker c hosts node s =
      (send_batch_jobs c no_args node.queue (map (λ h. spawn (host_queue_name h) h) hosts) s).1

  -- `_get_assigned_node_for_host`, for one host.
  unfoldable pub assigned_node : Store HS HN → String → Option NodeInfo
  assigned_node s host = elim (HS.hget s.hosts host) [ none ↦ none | some n ↦ HN.hget s.nodes n ]

  -- `get_node`
  unfoldable pub get_node : Store HS HN → String → Option NodeInfo
  get_node s name = HN.hget s.nodes name

  -- `nodes_dict[hostname] = node`
  dict_put : String → NodeInfo → List (String × NodeInfo) → List (String × NodeInfo)
  dict_put k v [] = (k, v) ∷ []
  dict_put k v ((j, w) ∷ d) = if str_eq j k then (j, v) ∷ d else (j, w) ∷ dict_put k v d

  collect : List (String × NodeInfo) → List (String × NodeInfo) → List (String × NodeInfo)
  unfolding dict_put
  collect d [] = d
  collect d ((k, v) ∷ l) = collect (dict_put k v d) l

  -- `get_all_nodes`
  unfoldable pub get_all_nodes : Store HS HN → List NodeInfo
  unfolding collect
  get_all_nodes s = map (λ e. e.1) (collect [] (HN.hscan s.nodes))
