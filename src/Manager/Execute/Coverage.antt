-- ===== src/Manager/Execute/Coverage.antt =====
-- No host of a bulk of requests is lost.
use linux_net_x.Base.{String, ◌≡◌, ap, sym, subst, ◌∙◌, Option, some, List, [], ◌∷◌, map}
use linux_net_x.Nodes.{NodeInfo, Result, ok}
use linux_net_x.Redis.{Hash}
use linux_net_x.Manager.{Config, WorkerInfo, execute, Job, State}
use linux_net_x.Manager.Dispatch.{pinned}
use linux_net_x.Manager.Bulk.{FailedItem}
use linux_net_x.Manager.Bulk.Coverage.{
  Covered, Queued, dispatch_bulk-Covered, dispatch_bulk_answers,
}
use linux_net_x.Detached.{TaskMeta}
use linux_net_x.Manager.Execute.{Execution, job_args, send_batch, execute_on_bulk_devices}

module _ (HS : Hash String) (HN : Hash NodeInfo) (HT : Hash TaskMeta) (c : Config)
    (workers : String → List WorkerInfo)
    (select : List NodeInfo → List String → Result (List (Option NodeInfo))) where
  -- The hosts of the requests, with the jobs of the first request's arguments, and what is put on
  -- the queues.
  abbrev pub BulkCovered :
      List Execution → List Job → List FailedItem → State HS HN → State HS HN → Type 0
  BulkCovered [] sent failed s s' = (sent ≡ []) × (s' ≡ s)
  BulkCovered (req ∷ reqs) sent failed s s' =
      Covered HS HN c workers select (job_args c req) execute sent failed 0
        (map (λ r. r.host) (req ∷ reqs))
      × Queued HS HN c workers select s sent s'

  pub execute_on_bulk_devices-BulkCovered :
      (req : Execution) (reqs : List Execution) (s : State HS HN) (sent : List Job)
      (failed : List FailedItem)
      → req.queue_strategy ≡ some pinned
      → let r = execute_on_bulk_devices HS HN HT c workers select (req ∷ reqs) s in
        r.0 ≡ ok (sent, failed) → BulkCovered (req ∷ reqs) sent failed s r.1
  unfolding execute_on_bulk_devices send_batch
  execute_on_bulk_devices-BulkCovered req reqs s sent failed p e =
      let same = ap (λ q. send_batch HS HN HT c workers select q req (req ∷ reqs) s) p in
      let (covered, queued) =
        dispatch_bulk-Covered HS HN c workers select (job_args c req) execute
          (map (λ r. r.host) (req ∷ reqs)) s sent failed (sym (ap (λ x. x.0) same) ∙ e) in
      (
        covered,
        subst (λ x. Queued HS HN c workers select s sent x) (sym (ap (λ x. x.1) same)) queued,
      )

  pub execute_on_bulk_devices_answers :
      (req : Execution) (reqs : List Execution) (s : State HS HN)
      → req.queue_strategy ≡ some pinned
      → (sent : List Job) × (failed : List FailedItem) × ((execute_on_bulk_devices HS HN HT c
            workers select
            (req ∷ reqs)
            s).0
          ≡ ok (sent, failed))
  unfolding execute_on_bulk_devices send_batch
  execute_on_bulk_devices_answers req reqs s p =
      let (sent, failed, e) =
        dispatch_bulk_answers HS HN c workers select (job_args c req) execute
          (map (λ r. r.host) (req ∷ reqs)) s in
      (sent, failed, ap (λ q. (send_batch HS HN HT c workers select q req (req ∷ reqs) s).0) p ∙ e)
