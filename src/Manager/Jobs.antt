-- ===== src/Manager/Jobs.antt =====
-- The job and worker lists of `Manager`, `cancel_job` and `kill_worker`
-- (linux_net/services/manager.py). Redis Queue (`rq`) is a parameter: what its queues, registries
-- and workers list. A name or id that is empty counts as none. A job's status is state, which a cancellation changes.
pub mod Laws
use linux_net_x.Base.{
  ℕ, zero, suc, String, Bool, true, false, Option, none, some, List, [], ◌∷◌, ◌++◌, any_of, keep,
  map, str_eq, if◌then◌else◌, take,
}
use linux_net_x.Manager.{fifo_queue_name}

pub data JobStatus : Type 0 where
  queued started job_finished job_failed canceled deferred : JobStatus

abbrev pub is_queued : JobStatus → Bool
is_queued queued = true
is_queued _ = false

-- `none` is a read that raises; `fetch` is `Job.fetch_many` for one job, rendered.
pub record Rq (A : Type 0) : Type 0 where
  pub job_ids : String → Option (List String)
  pub registry : JobStatus → String → Option (List String)
  pub worker_queues : List (List String)
  pub worker_names : String → List String
  pub all_job_ids : List String
  pub fetch : String → Option A
  pub cancels : String → Bool

-- `list(set(xs))`; the order of the elements is not relied upon.
unfoldable pub distinct : List String → List String
distinct [] = []
distinct (x ∷ xs) =
    let rest = distinct xs in if any_of (λ y. str_eq y x) rest then rest else x ∷ rest

-- `xs[:limit]`
abbrev pub limited {ℓ} : {A : Type ℓ} → Option ℕ → List A → List A
limited none xs = xs
limited (some n) xs = take n xs

module _ (A : Type 0) (rq : Rq A) where
  -- The ids of one queue by status; a failure of the read is an empty list to the loops below.
  ids_of : JobStatus → String → Option (List String)
  ids_of started q_name = rq.registry started q_name
  ids_of job_finished q_name = rq.registry job_finished q_name
  ids_of job_failed q_name = rq.registry job_failed q_name
  ids_of _ q_name = some []

  listed_ids : JobStatus → String → Option (List String)
  unfolding ids_of
  listed_ids queued q_name = rq.job_ids q_name
  listed_ids status q_name = ids_of status q_name

  queue_names : List (List String) → List String
  queue_names [] = fifo_queue_name ∷ []
  queue_names (names ∷ workers) = names ++ queue_names workers

  or_no_ids : Option (List String) → List String
  or_no_ids none = []
  or_no_ids (some ids) = ids

  ids_of_queues : JobStatus → List String → List String
  unfolding listed_ids or_no_ids
  ids_of_queues status [] = []
  ids_of_queues status (q ∷ queues) = or_no_ids (listed_ids status q) ++ ids_of_queues status queues

  is_listable : JobStatus → Bool
  is_listable canceled = false
  is_listable deferred = false
  is_listable _ = true

  -- `_get_job_id_by_status_all_queues`
  pub ids_by_status : JobStatus → List String
  unfolding ids_of_queues distinct queue_names is_listable
  ids_by_status status =
      if is_listable status
      then distinct (ids_of_queues status (distinct (queue_names rq.worker_queues)))
      else []

  -- `get_job_list_by_ids`: missing jobs are left out.
  unfoldable pub jobs_by_ids : List String → List A
  jobs_by_ids [] = []
  jobs_by_ids (id ∷ ids) =
      let rest = jobs_by_ids ids in elim (rq.fetch id) [ none ↦ rest | some job ↦ job ∷ rest ]

  -- `length=limit if limit else -1`, and `jobs[:limit] if limit else jobs`
  unfoldable pub queue_limited {ℓ} : {B : Type ℓ} → Option ℕ → List B → List B
  queue_limited none jobs = jobs
  queue_limited (some zero) jobs = jobs
  queue_limited (some (suc n)) jobs = take (suc n) jobs

  jobs_of_ids : Option ℕ → Option (List String) → Option (List A)
  unfolding jobs_by_ids
  jobs_of_ids limit none = none
  jobs_of_ids limit (some ids) = some (limited limit (jobs_by_ids ids))

  unfoldable pub jobs_of_queue : Option ℕ → Option (List String) → Option (List A)
  unfolding jobs_by_ids queue_limited
  jobs_of_queue limit none = none
  jobs_of_queue limit (some ids) =
      some (queue_limited limit (jobs_by_ids (queue_limited limit ids)))

  -- `get_job_list`; `none` if a read raises.
  unfoldable pub get_job_list : Option String → Option JobStatus → Option ℕ → Option (List A)
  unfolding jobs_of_ids jobs_of_queue ids_of jobs_by_ids
  get_job_list (some q_name) (some status) limit = jobs_of_ids limit (ids_of status q_name)
  get_job_list (some q_name) none limit = jobs_of_queue limit (rq.job_ids q_name)
  get_job_list none (some status) limit = jobs_of_ids limit (some (ids_by_status status))
  get_job_list none none limit = some (jobs_by_ids (limited limit rq.all_job_ids))

  -- The status of each job that there is.
  abbrev pub Statuses : Type 0
  Statuses = String → Option JobStatus

  -- `job.cancel()`
  unfoldable pub set_canceled : String → Statuses → Statuses
  set_canceled id s = λ k. if str_eq k id then some canceled else s k

  unfoldable pub can_cancel : String → Option JobStatus → Bool
  can_cancel id none = false
  can_cancel id (some status) = if is_queued status then rq.cancels id else false

  -- `cancel_job` by its id
  unfoldable pub cancel_by_id : String → Statuses → List String × Statuses
  unfolding can_cancel set_canceled
  cancel_by_id id s = if can_cancel id (s id) then (id ∷ [], set_canceled id s) else ([], s)

  -- The loop over the jobs of a queue.
  unfoldable pub cancel_each : List String → Statuses → List String × Statuses
  unfolding can_cancel set_canceled
  cancel_each [] s = ([], s)
  cancel_each (id ∷ ids) s = elim (can_cancel id (s id)) [
    | true ↦ let rest = cancel_each ids (set_canceled id s) in (id ∷ rest.0, rest.1)
    | false ↦ cancel_each ids s
  ]

  -- `cancel_job`. The jobs of the queue are read once.
  unfoldable pub cancel_job :
      Option String → Option String → Statuses → Option (List String × Statuses)
  unfolding cancel_by_id cancel_each
  cancel_job (some id) q_name s = some (cancel_by_id id s)
  cancel_job none none s = some ([], s)
  cancel_job none (some q_name) s = elim (rq.job_ids q_name) [
    | none ↦ none
    | some ids ↦ some (cancel_each ids s)
  ]

  -- `kill_worker`: the workers that are sent a shutdown command.
  pub kill_worker : Option String → Option String → List String
  kill_worker (some name) q_name = name ∷ []
  kill_worker none none = []
  kill_worker none (some q_name) = rq.worker_names q_name
