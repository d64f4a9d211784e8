-- ===== src/Detached/Manage.antt =====
-- The life of a detached task after its launch: `manage_detached_task` and the registry part of
-- `rpc_webhook_callback` (linux_net/services/rpc.py), and `query_detached_task`,
-- `kill_detached_task` and `discover_detached_tasks` of `Manager` (linux_net/services/manager.py).
pub mod Effects
pub mod Answers
pub mod Discovery
pub mod Queries
use linux_net_x.Base.{
  ℕ, String, Bool, true, false, ◌&&◌, not, Option, none, some, List, [], ◌∷◌, any_of, str_eq, ◌==◌,
  if◌then◌else◌, length, ◌+◌,
}
use linux_net_x.Nodes.{NodeInfo, Result, ok, raise, value_error, job_operation, index_error}
use linux_net_x.Redis.{Hash}
use linux_net_x.Manager.{
  Config, WorkerInfo, JobArgs, Func, execute, manage_detached_task, Job, State,
}
use linux_net_x.Manager.Dispatch.{pinned, dispatch_rpc_job}
use linux_net_x.Detached.{
  Status, running, completed, TaskMeta, Registry, register, get, unregister, list_all, same_status,
}

-- What the code reads of a `DriverExecutionResult` and its metadata; `none` is a missing key.
pub record DriverResult : Type 0 where
  pub exit_status : ℕ
  pub task_id : Option String
  pub next_offset : Option ℕ
  pub is_running : Option Bool
  pub completed_flag : Option Bool
  pub active_tasks : Option (List String)

abbrev pub or_else {ℓ} : {A : Type ℓ} → A → Option A → A
or_else d none = d
or_else d (some x) = x

abbrev pub status_of : Bool → Status
status_of true = running
status_of false = completed

pub data Action : Type 0 where
  query kill other : Action

-- The driver: whether it connects, and what it returns, `none` if it raises.
pub record Device : Type 0 where
  pub connects : Bool
  pub read_logs : ℕ → Option (List DriverResult)
  pub kill_task : Option (List DriverResult)

-- The metadata after a query at `offset`.
unfoldable pub queried : ℕ → ℕ → List DriverResult → TaskMeta → TaskMeta
queried now offset [] m = record m { status = completed; last_sync = some now }
queried now offset (res ∷ results) m = record m {
  last_offset = some (or_else offset res.next_offset);
  status = status_of (or_else false res.is_running);
  last_sync = some now;
}

-- The first result that names a task.
unfoldable pub tagged : List DriverResult → Option (String × DriverResult)
tagged [] = none
tagged (res ∷ results) = elim res.task_id [ some k ↦ some (k, res) | none ↦ tagged results ]

-- The metadata that a result brings up to date.
unfoldable pub synced : ℕ → Bool → DriverResult → TaskMeta → TaskMeta
synced now still_running res m = record m {
  last_offset = elim res.next_offset [ none ↦ m.last_offset | some n ↦ some n ];
  last_sync = some now;
  status = status_of still_running;
}

-- What each look at the job finds, until the time is up.
pub data Poll : Type 0 where
  pending : Poll
  finished : List DriverResult → Poll
  job_failed : Poll

abbrev pub management_args : JobArgs
management_args = record {
  ttl = some 30;
  timeout = none;
  result_ttl = some 60;
  on_success = none;
  on_failure = none;
}

module _ (HT : Hash TaskMeta) (mongodb_enabled : Bool) where
  -- A task's entry is written only where the registry still has one.
  unfoldable pub register_present : String → TaskMeta → Registry HT → Registry HT
  unfolding get register
  register_present task_id m r = elim (get HT task_id r) [
    | none ↦ r
    | some _ ↦ register HT mongodb_enabled task_id m r
  ]

  after_query :
      String
      → ℕ
      → ℕ
      → TaskMeta
      → Option (List DriverResult)
      → Registry HT
      → Result (List DriverResult) × Registry HT
  unfolding register_present queried
  after_query task_id now offset m none r = (raise job_operation, r)
  after_query task_id now offset m (some results) r =
      (ok results, register_present task_id (queried now offset results m) r)

  of_driver : Option (List DriverResult) → Result (List DriverResult)
  of_driver none = raise job_operation
  of_driver (some results) = ok results

  run_action :
      Device
      → String
      → ℕ
      → Action
      → Option ℕ
      → TaskMeta
      → Registry HT
      → Result (List DriverResult) × Registry HT
  unfolding after_query of_driver
  run_action device task_id now query offset m r =
      let from = or_else (or_else 0 m.last_offset) offset in
      after_query task_id now from m (device.read_logs from) r
  run_action device task_id now kill offset m r = (of_driver device.kill_task, r)
  run_action device task_id now other offset m r = (raise value_error, r)

  is_query : Action → Bool
  is_query query = true
  is_query _ = false

  manage_found :
      Device
      → String
      → ℕ
      → Action
      → Option ℕ
      → TaskMeta
      → Registry HT
      → Result (List DriverResult) × Registry HT
  unfolding run_action is_query
  manage_found device task_id now action offset m r =
      if is_query action && same_status m.status completed
      then (ok [], r)
      else if device.connects
      then run_action device task_id now action offset m r
      else (raise job_operation, r)

  -- `manage_detached_task`. `before` is the registry that it reads its task from, `r` the one when
  -- the driver has answered; the exceptions of drivers are one.
  unfoldable pub manage :
      Device
      → String
      → ℕ
      → Action
      → Option ℕ
      → Registry HT
      → Registry HT
      → Result (List DriverResult) × Registry HT
  unfolding get manage_found
  manage device task_id now action offset before r = elim (get HT task_id before) [
    | none ↦ (raise value_error, r)
    | some m ↦ manage_found device task_id now action offset m r
  ]

  sync_entry : Bool → ℕ → String → DriverResult → Option TaskMeta → Registry HT → Registry HT
  unfolding register synced
  sync_entry still_running now k res none r = r
  sync_entry still_running now k res (some m) r =
      register HT mongodb_enabled k (synced now still_running res m) r

  sync_tagged :
      (DriverResult → Bool) → ℕ → Option (String × DriverResult) → Registry HT → Registry HT
  unfolding get sync_entry
  sync_tagged still_running now none r = r
  sync_tagged still_running now (some (k, res)) r =
      sync_entry (still_running res) now k res (get HT k r) r

  -- The registry part of `rpc_webhook_callback`, for a detached request.
  unfoldable pub callback_sync : ℕ → List DriverResult → Registry HT → Registry HT
  unfolding sync_tagged sync_entry tagged
  callback_sync now results r =
      sync_tagged (λ res. not (or_else false res.completed_flag)) now (tagged results) r

  -- The registry part of `query_detached_task`.
  unfoldable pub query_sync : ℕ → List DriverResult → Registry HT → Registry HT
  unfolding sync_tagged sync_entry tagged
  query_sync now results r = sync_tagged (λ res. or_else true res.is_running) now (tagged results) r

  -- The status that `query_detached_task` returns.
  unfoldable pub query_status : List DriverResult → Status
  unfolding tagged
  query_status results = elim (tagged results) [
    | none ↦ running
    | some (k, res) ↦ status_of (or_else true res.is_running)
  ]

  unfoldable pub await_query :
      ℕ → List Poll → Registry HT → Result (Status × List DriverResult) × Registry HT
  unfolding query_sync query_status
  await_query now [] r = (raise job_operation, r)
  await_query now (pending ∷ polls) r = await_query now polls r
  await_query now (job_failed ∷ polls) r = (raise job_operation, r)
  await_query now (finished results ∷ polls) r =
      (ok (query_status results, results), query_sync now results r)

  unfoldable pub killed : List DriverResult → Bool
  killed [] = true
  killed (res ∷ results) = res.exit_status == 0

  unfoldable pub await_kill : String → List Poll → Registry HT → Bool × Registry HT
  unfolding killed unregister
  await_kill task_id [] r = (false, r)
  await_kill task_id (pending ∷ polls) r = await_kill task_id polls r
  await_kill task_id (job_failed ∷ polls) r = (false, r)
  await_kill task_id (finished results ∷ polls) r = (killed results, unregister HT task_id r)

  -- The loop over `all_tasks` of a discovery: running tasks of the host that the device does not
  -- list are completed.
  unfoldable pub sync_off :
      ℕ → String → List String → List (String × TaskMeta) → Registry HT → ℕ × Registry HT
  unfolding register
  sync_off now host active [] r = (0, r)
  sync_off now host active ((k, m) ∷ tasks) r =
      if str_eq m.host host && same_status m.status running && not (any_of (λ t. str_eq t k) active)
      then (let rest = sync_off now host active tasks (
            register HT mongodb_enabled k (record m { status = completed; last_sync = some now })
              r) in
          (rest.0 + 1, rest.1))
      else (let rest = sync_off now host active tasks r in rest)

  -- The answer of a discovery, from the first result's `active_tasks`, by identifier.
  unfoldable pub discovered :
      ℕ → String → List DriverResult → Registry HT → Result (ℕ × ℕ) × Registry HT
  unfolding sync_off list_all
  discovered now host [] r = (raise index_error, r)
  discovered now host (res ∷ results) r =
      let active = or_else [] res.active_tasks in
      let done = sync_off now host active (list_all HT r) r in (ok (length active, done.0), done.1)

  unfoldable pub await_discovery :
      ℕ → String → List Poll → Registry HT → Result (ℕ × ℕ) × Registry HT
  unfolding discovered
  await_discovery now host [] r = (raise job_operation, r)
  await_discovery now host (pending ∷ polls) r = await_discovery now host polls r
  await_discovery now host (job_failed ∷ polls) r = (raise job_operation, r)
  await_discovery now host (finished results ∷ polls) r = discovered now host results r

  module _ (HS : Hash String) (HN : Hash NodeInfo) (c : Config) (workers : String → List WorkerInfo)
      (select : List NodeInfo → String → Result NodeInfo) where
    -- A management job on the queue of the task's host.
    unfoldable pub dispatch_management : Func → String → State HS HN → Result Job × State HS HN
    dispatch_management func host s =
        dispatch_rpc_job HS HN c workers select pinned management_args func (some host) s

    -- `left` is the registry when the wait is over: the worker and others write to it meanwhile.
    unfoldable pub query_dispatched :
        ℕ
        → List Poll
        → Result Job
        → Registry HT
        → Registry HT
        → Result (Status × List DriverResult) × Registry HT
    unfolding await_query
    query_dispatched now polls (raise e) left r = (raise e, r)
    query_dispatched now polls (ok job) left r = await_query now polls left

    -- `query_detached_task`. `polls` is what it sees of its job within five seconds, and `left` the
    -- registry after that.
    unfoldable pub query_detached_task :
        String
        → ℕ
        → List Poll
        → Registry HT
        → State HS HN
        → Registry HT
        → Result (Status × List DriverResult) × State HS HN × Registry HT
    unfolding get query_dispatched dispatch_management
    query_detached_task task_id now polls left s r = elim (get HT task_id r) [
      | none ↦ (raise value_error, s, r)
      | some m ↦
          let sent = dispatch_management manage_detached_task m.host s in
          let answer = query_dispatched now polls sent.0 left r in (answer.0, sent.1, answer.1)
    ]

    unfoldable pub kill_dispatched :
        String → List Poll → Result Job → Registry HT → Result Bool × Registry HT
    unfolding await_kill
    kill_dispatched task_id polls (raise e) r = (raise e, r)
    kill_dispatched task_id polls (ok job) r =
        let answer = await_kill task_id polls r in (ok answer.0, answer.1)

    -- `kill_detached_task`
    unfoldable pub kill_detached_task :
        String → List Poll → State HS HN → Registry HT → Result Bool × State HS HN × Registry HT
    unfolding get kill_dispatched dispatch_management
    kill_detached_task task_id polls s r = elim (get HT task_id r) [
      | none ↦ (ok false, s, r)
      | some m ↦
          let sent = dispatch_management manage_detached_task m.host s in
          let answer = kill_dispatched task_id polls sent.0 r in (answer.0, sent.1, answer.1)
    ]

    unfoldable pub discovery_dispatched :
        ℕ → String → List Poll → Result Job → Registry HT → Result (ℕ × ℕ) × Registry HT
    unfolding await_discovery
    discovery_dispatched now host polls (raise e) r = (raise e, r)
    discovery_dispatched now host polls (ok job) r = await_discovery now host polls r

    -- `discover_detached_tasks`: how many tasks the device lists, and how many are synced off.
    unfoldable pub discover_detached_tasks :
        ℕ
        → String
        → List Poll
        → State HS HN
        → Registry HT
        → Result (ℕ × ℕ) × State HS HN × Registry HT
    unfolding discovery_dispatched dispatch_management
    discover_detached_tasks now host polls s r =
        let sent = dispatch_management (execute 0) host s in
        let answer = discovery_dispatched now host polls sent.0 r in (answer.0, sent.1, answer.1)
