-- ===== src/Manager/Execute.antt =====
-- `Manager.execute_on_device` and `Manager.execute_on_bulk_devices`
-- (linux_net/services/manager.py), for requests that name their host.
pub mod Tracking
pub mod Coverage
use linux_net_x.Base.{
  ℕ, String, Bool, true, false, Option, none, some, List, [], ◌∷◌, map, if◌then◌else◌,
}
use linux_net_x.Nodes.{NodeInfo, Result, ok, raise, assertion}
use linux_net_x.Redis.{Hash}
use linux_net_x.Manager.{
  Config, WorkerInfo, JobArgs, Func, execute, rpc_webhook_callback, Job, State,
}
use linux_net_x.Manager.Dispatch.{QueueStrategy, dispatch_rpc_job}
use linux_net_x.Manager.Bulk.{FailedItem, dispatch_bulk_rpc_jobs}
use linux_net_x.Detached.{TaskMeta, launching, Registry, register}

-- The fields of `ExecutionRequest` that the two methods read.
pub record Execution : Type 0 where
  pub host : String
  pub queue_strategy : Option QueueStrategy
  pub detach : Bool
  pub webhook : Bool
  pub file_transfer : Bool
  pub ttl : Option ℕ
  pub execution_timeout : Option ℕ
  pub result_ttl : Option ℕ
  pub push_interval : Option ℕ

effective_timeout : Config → Execution → ℕ
effective_timeout c req = elim req.execution_timeout [
  | some timeout ↦ timeout
  | none ↦ if req.file_transfer then 3600 else c.job_timeout
]

-- Both callbacks are `rpc_webhook_callback`, with or without a webhook.
pub job_args : Config → Execution → JobArgs
unfolding effective_timeout
job_args c req = record {
  ttl = req.ttl;
  timeout = some (effective_timeout c req);
  result_ttl = req.result_ttl;
  on_success = some rpc_webhook_callback;
  on_failure = some rpc_webhook_callback;
}

-- The metadata of a task that is launched at `now`.
pub launching_meta : ℕ → Execution → TaskMeta
launching_meta now req = record {
  status = launching;
  last_sync = some 0;
  created_at = some now;
  push_interval = req.push_interval;
  webhook = req.webhook;
  last_offset = none;
  host = req.host;
}

module _ (HS : Hash String) (HN : Hash NodeInfo) (HT : Hash TaskMeta) (c : Config)
    (workers : String → List WorkerInfo) where
  module _ (select : List NodeInfo → String → Result NodeInfo) (mongodb_enabled : Bool) where
    -- The registration that follows a dispatch, which an exception skips.
    track : String → ℕ → Execution → Result Job → Registry HT → Registry HT
    unfolding launching_meta register
    track task_id now req (raise e) registry = registry
    track task_id now req (ok job) registry =
        if req.detach
        then register HT mongodb_enabled task_id (launching_meta now req) registry
        else registry

    send_execution :
        String
        → ℕ
        → Execution
        → Option QueueStrategy
        → State HS HN
        → Registry HT
        → Result Job × State HS HN × Registry HT
    unfolding track job_args
    send_execution task_id now req none s registry = (raise assertion, s, registry)
    send_execution task_id now req (some strategy) s registry =
        let r =
          dispatch_rpc_job HS HN c workers select strategy (job_args c req) (execute 0)
            (some req.host) s in
        (r.0, r.1, track task_id now req r.0 registry)

    -- `execute_on_device`. `task_id` is the new identifier of a detached task.
    pub execute_on_device :
        String → ℕ → Execution → State HS HN → Registry HT → Result Job × State HS HN × Registry HT
    unfolding send_execution
    execute_on_device task_id now req s registry =
        send_execution task_id now req req.queue_strategy s registry

  module _ (select : List NodeInfo → List String → Result (List (Option NodeInfo))) where
    send_batch :
        Option QueueStrategy
        → Execution
        → List Execution
        → State HS HN
        → Result (List Job × List FailedItem) × State HS HN
    unfolding job_args
    send_batch none req reqs s = (raise assertion, s)
    send_batch (some strategy) req reqs s =
        dispatch_bulk_rpc_jobs HS HN c workers select strategy (job_args c req) execute
          (map (λ r. r.host) reqs) s

    -- `execute_on_bulk_devices`: the first request decides for all. A request is known by its index.
    pub execute_on_bulk_devices :
        List Execution → State HS HN → Result (List Job × List FailedItem) × State HS HN
    unfolding send_batch
    execute_on_bulk_devices [] s = (raise assertion, s)
    execute_on_bulk_devices (req ∷ reqs) s = send_batch req.queue_strategy req (req ∷ reqs) s
