-- ===== src/Manager/Bulk/Coverage.antt =====
-- No host of a bulk request is lost.
use mathlib.Core.List.{append_assoc, append-nil}
use linux_net_x.Base.{
  ℕ, ◌+◌, String, ◌≡◌, ◌∙◌, sym, ap, refl, ◌⊎◌, inl, inr, true, not, Option, none, some, List, [],
  ◌∷◌, ◌++◌, map, keep, Bool-cases, Option-cases, All, All-map, In, In-All, In-map, In-append_left,
  In-append_right, In-keep, subst,
}
use linux_net_x.Nodes.{NodeInfo, Result, ok, raise}
use linux_net_x.Redis.{Hash}
use linux_net_x.Node.{Store, force_delete}
use linux_net_x.Manager.{
  Config, WorkerInfo, JobArgs, Func, Job, State, assigned_node, no_args, spawn, check_worker_alive,
  send_batch_jobs, try_launch_pinned_worker, make_job, host_queue_name,
}
use linux_net_x.Manager.Bulk.{
  Entry, FailedItem, is_failed, assigned_entries, unassigned_entries, schedule, bulk_pinned,
  node_dead, launch_loop, place, select_loop, dispatch_bulk_rpc_jobs,
}
use linux_net_x.Manager.Dispatch.{pinned}

module _ (HS : Hash String) (HN : Hash NodeInfo) (c : Config) (workers : String → List WorkerInfo)
    (select : List NodeInfo → List String → Result (List (Option NodeInfo))) where
  abbrev assigned : ℕ → List String → Store HS HN → List Entry
  assigned = assigned_entries HS HN c workers select

  abbrev unassigned : ℕ → List String → Store HS HN → List Entry
  unassigned = unassigned_entries HS HN c workers select

  module _ (i : ℕ) (h : String) (hosts : List String) (s : Store HS HN) where
    assigned-none :
        assigned_node HS HN s h ≡ none → assigned i (h ∷ hosts) s ≡ assigned (i + 1) hosts s
    unfolding assigned_entries
    assigned-none e = rw (e, assigned_entries)

    unassigned-none :
        assigned_node HS HN s h ≡ none
        → unassigned i (h ∷ hosts) s ≡ (i, h) ∷ unassigned (i + 1) hosts s
    unfolding unassigned_entries
    unassigned-none e = rw (e, unassigned_entries)

    assigned-some :
        (n : NodeInfo)
        → assigned_node HS HN s h ≡ some n
        → assigned i (h ∷ hosts) s ≡ (i, h) ∷ assigned (i + 1) hosts s
    unfolding assigned_entries
    assigned-some n e = rw (e, assigned_entries)

    unassigned-some :
        (n : NodeInfo)
        → assigned_node HS HN s h ≡ some n
        → unassigned i (h ∷ hosts) s ≡ unassigned (i + 1) hosts s
    unfolding unassigned_entries
    unassigned-some n e = rw (e, unassigned_entries)

  -- The requests from index `i` on: each has its job among `sent`, or its host among `failed`.
  abbrev pub Covered : JobArgs → (ℕ → Func) → List Job → List FailedItem → ℕ → List String → Type 0
  Covered a func sent failed i [] = Unit
  Covered a func sent failed i (h ∷ hosts) =
      (In (make_job c a (host_queue_name h) (func i)) sent ⊎ (is_failed h failed ≡ true))
      × Covered a func sent failed (i + 1) hosts

  module _ (a : JobArgs) (func : ℕ → Func) (failed : List FailedItem) where
    abbrev job : Entry → Job
    job e = make_job c a (host_queue_name e.1) (func e.0)

    abbrev ready_of : List Entry → List Entry
    ready_of = keep (λ e. not (is_failed e.1 failed))

    -- Whatever list of jobs has those of the two parts covers the requests.
    covers :
        (i : ℕ) (hosts : List String) (s : Store HS HN) (sent : List Job)
        → All (λ e. In (job e) sent) (assigned i hosts s)
        → All (λ e. In (job e) sent ⊎ (is_failed e.1 failed ≡ true)) (unassigned i hosts s)
        → Covered a func sent failed i hosts
    unfolding assigned_entries unassigned_entries
    covers i [] s sent ha hu = tt
    covers i (h ∷ hosts) s sent ha hu = elim (Option-cases (assigned_node HS HN s h)) [
      | inl e ↦
          let ha' = subst (All HasJob) (assigned-none i h hosts s e) ha in
          let hu' = subst (All IsSettled) (unassigned-none i h hosts s e) hu in
          (hu'.0, covers (i + 1) hosts s sent ha' hu'.1)
      | inr (n, e) ↦
          let ha' = subst (All HasJob) (assigned-some i h hosts s n e) ha in
          let hu' = subst (All IsSettled) (unassigned-some i h hosts s n e) hu in
          (inl ha'.0, covers (i + 1) hosts s sent ha'.1 hu')
    ]
      where
        HasJob : Entry → Type 0
        HasJob e = In (job e) sent

        IsSettled : Entry → Type 0
        IsSettled e = In (job e) sent ⊎ (is_failed e.1 failed ≡ true)

    -- The jobs of the indices that did not fail are among the jobs sent.
    settled :
        (l : List Entry) (first : List Entry)
        → All (λ e. In (job e) (map job (first ++ ready_of l)) ⊎ (is_failed e.1 failed ≡ true)) l
    settled l first =
        All-map _ _ l (λ e h. h)
          (In-All l _ (λ e m. elim (Bool-cases (is_failed e.1 failed)) [
            | inl f ↦ inr f
            | inr f ↦ inl (
                In-map job e _ (In-append_right e first (ready_of l) (In-keep e _ l (rw f refl) m)))
          ]))

  -- A spawn job that the launch of a worker for a host puts on a node's queue.
  abbrev pub IsLaunch : Job → Type 0
  IsLaunch j =
      (n : NodeInfo) × (h : String) × (j ≡ make_job c no_args n.queue (spawn (host_queue_name h) h))

  -- What a bulk has put on the queues: spawn jobs, and after them the jobs that it returns.
  abbrev pub Queued : State HS HN → List Job → State HS HN → Type 0
  Queued s sent s' =
      (launched : List Job) × All IsLaunch launched × (s'.jobs ≡ (s.jobs ++ launched) ++ sent)

  -- The state after the scheduling: only spawn jobs have been added.
  abbrev Launched : State HS HN → State HS HN → Type 0
  Launched s s' = (launched : List Job) × All IsLaunch launched × (s'.jobs ≡ s.jobs ++ launched)

  Launched-refl : (s : State HS HN) → Launched s s
  Launched-refl s = ([], tt, sym (append-nil s.jobs))

  launch_loop-Launched :
      (groups : List (NodeInfo × Entry)) (failed : List FailedItem) (s : State HS HN)
      → Launched s (launch_loop HS HN c workers select groups failed s).1
  unfolding launch_loop try_launch_pinned_worker send_batch_jobs
  launch_loop-Launched [] failed s = Launched-refl s
  launch_loop-Launched ((n, e) ∷ groups) failed s =
      elim (Bool-cases (check_worker_alive c workers n.queue)) [
        | inl up ↦
            let s' = try_launch_pinned_worker HS HN c (e.1 ∷ []) n s in
            let (l, all, q) = launch_loop-Launched groups failed s' in
            rw (up, launch_loop)
              (
                make_job c no_args n.queue (spawn (host_queue_name e.1) e.1) ∷ l,
                ((n, e.1, refl), all),
                q ∙ append_assoc s.jobs _ l,
              )
        | inr down ↦
            rw (down, launch_loop)
              (launch_loop-Launched groups
                (failed ++ record { host = e.1; reason = node_dead n.hostname } ∷ [])
                (record s { store = force_delete HS HN n.hostname s.store }))
      ]

  place-Launched :
      (entries : List Entry) (selected : Result (List (Option NodeInfo))) (s : State HS HN)
      → Launched s (place HS HN c workers select entries selected s).1
  unfolding place
  place-Launched entries (raise e) s = Launched-refl s
  place-Launched entries (ok []) s = Launched-refl s
  place-Launched entries (ok (n ∷ selected)) s =
      let r = select_loop entries (n ∷ selected) in
      elim (Bool-cases r.2) [
        | inl f ↦ rw f (launch_loop-Launched r.1 r.0 s)
        | inr f ↦ rw f (Launched-refl s)
      ]

  schedule-Launched :
      (entries : List Entry) (s : State HS HN)
      → Launched s (schedule HS HN c workers select entries s).1
  unfolding schedule
  schedule-Launched [] s = Launched-refl s
  schedule-Launched (e ∷ entries) s = place-Launched (e ∷ entries) _ s

  -- In every bulk request on pinned queues each host has a job on its queue for its request, or is
  -- reported as failed, whatever the scheduler and the liveness of nodes do. What the request adds
  -- to the queues is spawn jobs, and then exactly these jobs.
  pub bulk_covers :
      (a : JobArgs) (func : ℕ → Func) (hosts : List String) (s : State HS HN)
      → let r = bulk_pinned HS HN c workers select a func hosts s in
        Covered a func r.0 r.1 0 hosts × Queued s r.0 r.2
  unfolding bulk_pinned
  bulk_covers a func hosts s =
      let rest = unassigned 0 hosts s.store in
      let first = assigned 0 hosts s.store in
      let failed = (schedule HS HN c workers select rest s).0 in
      let (l, all, q) = schedule-Launched rest s in
      (
        covers a func failed 0 hosts s.store _
            (In-All first _ (λ e m. In-map (job a func failed) e _ (In-append_left e first _ m)))
            (settled a func failed rest first),
        (l, all, ap (λ x. x ++ map (job a func failed) (first ++ ready_of a func failed rest)) q),
      )

  pub dispatch_bulk-Covered :
      (a : JobArgs) (func : ℕ → Func) (hosts : List String) (s : State HS HN) (sent : List Job)
      (failed : List FailedItem)
      → (dispatch_bulk_rpc_jobs HS HN c workers select pinned a func hosts s).0 ≡ ok (sent, failed)
      → Covered a func sent failed 0 hosts
        × Queued s sent (dispatch_bulk_rpc_jobs HS HN c workers select pinned a func hosts s).1
  unfolding dispatch_bulk_rpc_jobs
  dispatch_bulk-Covered a func hosts s sent failed e =
      let r = bulk_pinned HS HN c workers select a func hosts s in
      let p : r.0 ≡ sent = cc in
      let q : r.1 ≡ failed = cc in
      let (covered, queued) = bulk_covers a func hosts s in
      (
        subst (λ x. Covered a func x failed 0 hosts) p
            (subst (λ x. Covered a func r.0 x 0 hosts) q covered),
        subst (λ x. Queued s x r.2) p queued,
      )

  pub dispatch_bulk_answers :
      (a : JobArgs) (func : ℕ → Func) (hosts : List String) (s : State HS HN)
      → (sent : List Job) × (failed : List FailedItem) × ((dispatch_bulk_rpc_jobs HS HN c workers
            select pinned a func hosts s).0
          ≡ ok (sent, failed))
  unfolding dispatch_bulk_rpc_jobs
  dispatch_bulk_answers a func hosts s =
      let r = bulk_pinned HS HN c workers select a func hosts s in (r.0, r.1, refl)
