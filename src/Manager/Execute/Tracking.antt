-- ===== src/Manager/Execute/Tracking.antt =====
-- What the execution of a request leaves in the registry of detached tasks, and in its job.
use linux_net_x.Base.{
  ℕ, String, ◌≡◌, refl, inl, inr, Bool, true, false, ◌&&◌, some, List, str_eq, if◌then◌else◌,
  Bool-cases, Option-cases,
}
use linux_net_x.Nodes.{NodeInfo, Result, ok, raise}
use linux_net_x.Redis.{Hash}
use linux_net_x.Manager.{Config, WorkerInfo, Job, State}
use linux_net_x.Detached.{TaskMeta, Registry, register, get}
use linux_net_x.Manager.Execute.{
  Execution, launching_meta, track, send_execution, execute_on_device,
}

abbrev pub is_ok : Result Job → Bool
is_ok (ok job) = true
is_ok (raise e) = false

module _ (HS : Hash String) (HN : Hash NodeInfo) (HT : Hash TaskMeta) (c : Config)
    (workers : String → List WorkerInfo) (select : List NodeInfo → String → Result NodeInfo)
    (mongodb_enabled : Bool) where
  abbrev run :
      String → ℕ → Execution → State HS HN → Registry HT → Result Job × State HS HN × Registry HT
  run = execute_on_device HS HN HT c workers select mongodb_enabled

  get-register :
      (task_id j : String) (m : TaskMeta) (r : Registry HT)
      → get HT j (register HT mongodb_enabled task_id m r)
        ≡ (if str_eq task_id j then some m else get HT j r)
  unfolding get register
  get-register task_id j m r = HT.hget-hset r.table task_id j m

  get-track :
      (task_id j : String) (now : ℕ) (req : Execution) (outcome : Result Job)
      (registry : Registry HT)
      → get HT j (track HS HN HT c workers select mongodb_enabled task_id now req outcome registry)
        ≡ (if is_ok outcome && req.detach && str_eq task_id j
            then some (launching_meta now req)
            else get HT j registry)
  unfolding track
  get-track task_id j now req (raise e) registry = refl
  get-track task_id j now req (ok job) registry = elim (Bool-cases req.detach) [
    | inl d ↦ rw d (get-register task_id j (launching_meta now req) registry)
    | inr d ↦ rw d refl
  ]

  -- After a request has been executed, the registry holds the task's launching entry if the dispatch
  -- succeeded and the request is detached; in all other cases, and at all other keys, it is as it was.
  pub execute_on_device-get :
      (task_id j : String) (now : ℕ) (req : Execution) (s : State HS HN) (registry : Registry HT)
      → let r = run task_id now req s registry in
        get HT j r.2 ≡ (
          if is_ok r.0 && req.detach && str_eq task_id j
          then some (launching_meta now req)
          else get HT j registry)
  unfolding execute_on_device send_execution
  execute_on_device-get task_id j now req s registry = elim (Option-cases req.queue_strategy) [
    | inl e ↦ rw (e, send_execution) refl
    | inr (strategy, e) ↦ rw (e, send_execution) (get-track task_id j now req _ registry)
  ]
