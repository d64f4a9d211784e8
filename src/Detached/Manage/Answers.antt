-- ===== src/Detached/Manage/Answers.antt =====
-- What the synchronous management of a task by the Manager answers and leaves in the registry.
use linux_net_x.Base.{
  ◌==◌, ℕ, String, ◌≡◌, ap, ◌⊎◌, inl, inr, Bool, true, false, none, some, List, [], ◌∷◌,
  Option-cases,
}
use linux_net_x.Nodes.{NodeInfo, Error, Result, ok, raise, job_operation}
use linux_net_x.Redis.{Hash, hget-hdel_self}
use linux_net_x.Manager.{manage_detached_task, Config, WorkerInfo, Job, State}
use linux_net_x.Detached.{Status, running, TaskMeta, Registry, get, unregister}
use linux_net_x.Detached.Manage.{
  DriverResult, or_else, status_of, tagged, Poll, pending, finished, job_failed,
  dispatch_management, query_sync, query_status, await_kill, killed, kill_dispatched,
  kill_detached_task,
}
use linux_net_x.Detached.Manage.Effects.{find}

module _ (HT : Hash TaskMeta) (mongodb_enabled : Bool) where
  module _ (HS : Hash String) (HN : Hash NodeInfo) (c : Config) (workers : String → List WorkerInfo)
      (select : List NodeInfo → String → Result NodeInfo) where
    -- No look at the job within the wait finds it finished.
    abbrev pub Unfinished : List Poll → Type 0
    Unfinished [] = Unit
    Unfinished (pending ∷ polls) = Unfinished polls
    Unfinished (job_failed ∷ polls) = Unit
    Unfinished (finished results ∷ polls) = ⊥

    -- What a synchronous query answers: the results, the status, and the registry.
    abbrev Answered :
        ℕ → List Poll → Registry HT → Result (Status × List DriverResult) × Registry HT → Type 0
    Answered now polls r x =
        ((x.0 ≡ raise job_operation) × (x.1 ≡ r) × Unfinished polls)
        ⊎ ((results : List DriverResult) × (x.0
              ≡ ok (query_status HT mongodb_enabled results, results))
            × (x.1 ≡ query_sync HT mongodb_enabled now results r))

    await_kill-true :
        (k : String) (polls : List Poll) (r : Registry HT)
        → (await_kill HT mongodb_enabled k polls r).0 ≡ true
        → find HT mongodb_enabled k (await_kill HT mongodb_enabled k polls r).1 ≡ none
    unfolding await_kill get unregister
    await_kill-true k [] r e = cc
    await_kill-true k (pending ∷ polls) r e = await_kill-true k polls r e
    await_kill-true k (job_failed ∷ polls) r e = cc
    await_kill-true k (finished results ∷ polls) r e = hget-hdel_self HT r.table k

    kill_dispatched-true :
        (k : String) (polls : List Poll) (sent : Result Job) (r : Registry HT)
        → (kill_dispatched HT mongodb_enabled HS HN c workers select k polls sent r).0 ≡ ok true
        → find HT mongodb_enabled k
            (kill_dispatched HT mongodb_enabled HS HN c workers select k polls sent r).1
          ≡ none
    unfolding kill_dispatched
    kill_dispatched-true k polls (raise e) r h = cc
    kill_dispatched-true k polls (ok job) r h = await_kill-true k polls r (cc)

    -- A kill that is reported as successful has removed the task from the registry.
    pub kill_detached_task-true :
        (k : String) (polls : List Poll) (s : State HS HN) (r : Registry HT)
        → (kill_detached_task HT mongodb_enabled HS HN c workers select k polls s r).0 ≡ ok true
        → find HT mongodb_enabled k
            (kill_detached_task HT mongodb_enabled HS HN c workers select k polls s r).2
          ≡ none
    unfolding kill_detached_task
    kill_detached_task-true k polls s r h = elim (Option-cases (find HT mongodb_enabled k r)) [
      | inl e ↦ rw (e, kill_detached_task) e
      | inr (m, e) ↦
          rw (e, kill_detached_task)
            (kill_dispatched-true k polls _ r (rw (e, kill_detached_task) at h))
    ]

    kill_dispatched_failed :
        (k : String) (job : Job) (res : DriverResult) (results : List DriverResult)
        (polls : List Poll) (sent : Result Job) (r : Registry HT)
        → sent ≡ ok job
        → (res.exit_status == 0) ≡ false
        → let x =
            kill_dispatched HT mongodb_enabled HS HN c workers select k
              (finished (res ∷ results) ∷ polls)
              sent
              r in
          (x.0 ≡ ok false) × (find HT mongodb_enabled k x.1 ≡ none)
    unfolding kill_dispatched await_kill killed get unregister
    kill_dispatched_failed k job res results polls (raise e) r sent alive = cc
    kill_dispatched_failed k job res results polls (ok j) r sent alive =
        (ap ok alive, hget-hdel_self HT r.table k)

    -- A kill whose job finishes removes the task from the registry whatever its driver answers:
    -- with a first result that has another exit status than 0, the kill is reported as failed and
    -- the task is no longer known.
    pub kill_forgets_survivors :
        (k : String) (m : TaskMeta) (job : Job) (res : DriverResult) (results : List DriverResult)
        (polls : List Poll) (s : State HS HN) (r : Registry HT)
        → find HT mongodb_enabled k r ≡ some m
        → (dispatch_management HT mongodb_enabled HS HN c workers select manage_detached_task m.host
            s).0
          ≡ ok job
        → (res.exit_status == 0) ≡ false
        → let x =
            kill_detached_task HT mongodb_enabled HS HN c workers select k
              (finished (res ∷ results) ∷ polls)
              s
              r in
          (x.0 ≡ ok false) × (find HT mongodb_enabled k x.2 ≡ none)
    unfolding kill_detached_task
    kill_forgets_survivors k m job res results polls s r found sent alive =
        rw (found, kill_detached_task)
          (kill_dispatched_failed k job res results polls _ r sent alive)

    -- What a query answers when its wait has left the registry `left`, in all its outcomes: it has
    -- raised for the reason `Fails`, and no entry has changed; or its results name no task, and it
    -- answers that the task is running; or they name one, and it answers its status, which its entry
    -- has if it has one.
    pub data Told (Fails : Type 0) (left r : Registry HT)
        (x : Result (Status × List DriverResult) × Registry HT) : Type 0 where
      query_raised :
          (e : Error) → Fails → x.0 ≡ raise e → (x.1 ≡ r) ⊎ (x.1 ≡ left) → Told Fails left r x
      nothing_told :
          (results : List DriverResult)
          → tagged results ≡ none
          → x.0 ≡ ok (running, results)
          → x.1 ≡ left
          → Told Fails left r x
      status_told :
          (results : List DriverResult) (k : String) (res : DriverResult)
          → tagged results ≡ some (k, res)
          → x.0 ≡ ok (status_of (or_else true res.is_running), results)
          → ((m : TaskMeta)
              → find HT mongodb_enabled k left ≡ some m
              → (m' : TaskMeta) × (find HT mongodb_enabled k x.1 ≡ some m')
                × (m'.status ≡ status_of (or_else true res.is_running)))
          → Told Fails left r x

    abbrev pub NotDone : Result Job → List Poll → Type 0
    NotDone sent polls = ((e : Error) × (sent ≡ raise e)) ⊎ Unfinished polls

    -- A query without an answer: the task is unknown, its job cannot be sent, or does not finish.
    abbrev pub Unanswered : String → List Poll → State HS HN → Registry HT → Type 0
    Unanswered task_id polls s r =
        (find HT mongodb_enabled task_id r ≡ none)
        ⊎ ((m : TaskMeta) × (find HT mongodb_enabled task_id r ≡ some m)
            × NotDone
                (dispatch_management HT mongodb_enabled HS HN c workers select manage_detached_task
                  m.host s).0
                polls)
