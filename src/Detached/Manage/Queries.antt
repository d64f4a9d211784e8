-- ===== src/Detached/Manage/Queries.antt =====
-- What one query of a task's log answers, and what it and its callback leave in the registry.
use linux_net_x.Base.{
  ℕ, String, ◌≡◌, refl, ap, ◌∙◌, Bool, true, false, not, Option, none, some, List, [], ◌∷◌, eq_refl,
  arith,
}
use linux_net_x.Nodes.{Result, ok, raise, value_error, job_operation}
use linux_net_x.Redis.{Hash}
use linux_net_x.Detached.{completed, TaskMeta, Registry, register, same_status}
use linux_net_x.Detached.Manage.{
  DriverResult, or_else, status_of, Device, query, queried, tagged, synced, register_present,
  after_query, run_action, is_query, manage_found, manage, sync_entry, sync_tagged, callback_sync,
}
use linux_net_x.Detached.Manage.Effects.{find, find-register}

-- The result of a log query of the task `k`, which runs or has ended.
pub record IsLog (k : String) (alive : Bool) (res : DriverResult) : Type 0 where
  pub of_task : res.task_id ≡ some k
  pub runs : res.is_running ≡ some alive
  pub ends : res.completed_flag ≡ some (not alive)

module _ (HT : Hash TaskMeta) (mongodb_enabled : Bool) where
  abbrev look : String → Registry HT → Option TaskMeta
  look = find HT mongodb_enabled

  module _ (device : Device) (k : String) (now : ℕ) where
    abbrev asked : Registry HT → Result (List DriverResult) × Registry HT
    asked r = manage HT mongodb_enabled device k now query none r r

    pub manage-absent : (r : Registry HT) → look k r ≡ none → asked r ≡ (raise value_error, r)
    unfolding manage
    manage-absent r e = rw (e, manage) refl

    abbrev found : TaskMeta → Registry HT → Result (List DriverResult) × Registry HT
    found m r = manage_found HT mongodb_enabled device k now query none m r

    manage-found : (m : TaskMeta) (r : Registry HT) → look k r ≡ some m → asked r ≡ found m r
    unfolding manage
    manage-found m r e = rw (e, manage) refl

    found-over : (m : TaskMeta) (r : Registry HT) → m.status ≡ completed → found m r ≡ (ok [], r)
    unfolding manage_found is_query
    found-over m r over = rw over refl

    -- A task that is over is not asked for again.
    pub manage-over :
        (m : TaskMeta) (r : Registry HT)
        → look k r ≡ some m
        → m.status ≡ completed
        → asked r ≡ (ok [], r)
    manage-over m r e over = manage-found m r e ∙ found-over m r over

    found-unconnected :
        (m : TaskMeta) (r : Registry HT)
        → same_status m.status completed ≡ false
        → device.connects ≡ false
        → found m r ≡ (raise job_operation, r)
    unfolding manage_found is_query
    found-unconnected m r live down = rw (live, down) refl

    pub manage-unconnected :
        (m : TaskMeta) (r : Registry HT)
        → look k r ≡ some m
        → same_status m.status completed ≡ false
        → device.connects ≡ false
        → asked r ≡ (raise job_operation, r)
    manage-unconnected m r e live down = manage-found m r e ∙ found-unconnected m r live down

    -- The offset that a query without one reads from.
    abbrev pub from_of : TaskMeta → ℕ
    from_of m = or_else 0 m.last_offset

    found-unread :
        (m : TaskMeta) (r : Registry HT)
        → same_status m.status completed ≡ false
        → device.connects ≡ true
        → device.read_logs (from_of m) ≡ none
        → found m r ≡ (raise job_operation, r)
    unfolding manage_found is_query run_action after_query
    found-unread m r live up e = rw (live, up) (rw e refl)

    pub manage-unread :
        (m : TaskMeta) (r : Registry HT)
        → look k r ≡ some m
        → same_status m.status completed ≡ false
        → device.connects ≡ true
        → device.read_logs (from_of m) ≡ none
        → asked r ≡ (raise job_operation, r)
    manage-unread m r e live up f = manage-found m r e ∙ found-unread m r live up f

    abbrev pub written : TaskMeta → DriverResult → Registry HT → Registry HT
    written m res r = register HT mongodb_enabled k (queried now (from_of m) (res ∷ []) m) r

    register_present-found :
        (m n : TaskMeta) (r : Registry HT)
        → look k r ≡ some m
        → register_present HT mongodb_enabled k n r ≡ register HT mongodb_enabled k n r
    unfolding register_present
    register_present-found m n r e = rw (e, register_present) refl

    found-read :
        (m : TaskMeta) (res : DriverResult) (r : Registry HT)
        → look k r ≡ some m
        → same_status m.status completed ≡ false
        → device.connects ≡ true
        → device.read_logs (from_of m) ≡ some (res ∷ [])
        → found m r ≡ (ok (res ∷ []), written m res r)
    unfolding manage_found is_query run_action after_query
    found-read m res r e live up f =
        rw (live, up)
          (rw f (
            ap (λ s. (ok (res ∷ []), s))
              (register_present-found m (queried now (from_of m) (res ∷ []) m) r e)))

    -- A query that is answered gives the answer, and writes the task's new metadata.
    pub manage-read :
        (m : TaskMeta) (res : DriverResult) (r : Registry HT)
        → look k r ≡ some m
        → same_status m.status completed ≡ false
        → device.connects ≡ true
        → device.read_logs (from_of m) ≡ some (res ∷ [])
        → asked r ≡ (ok (res ∷ []), written m res r)
    manage-read m res r e live up f = manage-found m r e ∙ found-read m res r e live up f

    pub look-written :
        (m : TaskMeta) (res : DriverResult) (r : Registry HT)
        → look k (written m res r) ≡ some (queried now (from_of m) (res ∷ []) m)
    look-written m res r =
        find-register HT mongodb_enabled k k (queried now (from_of m) (res ∷ []) m) r
        ∙ ground (arith, eq_refl k)

    pub queried-status :
        (m : TaskMeta) (alive : Bool) (res : DriverResult)
        → IsLog k alive res
        → (queried now (from_of m) (res ∷ []) m).status ≡ status_of alive
    unfolding queried
    queried-status m alive res l = rw l.runs refl

    tagged-log :
        (alive : Bool) (res : DriverResult) → IsLog k alive res → tagged (res ∷ []) ≡ some (k, res)
    unfolding tagged
    tagged-log alive res l =
        ap
          (λ (o : Option String). elim o as (λ _. Option (String × DriverResult)) [
            | some j ↦ some (j, res)
            | none ↦ tagged []
          ])
          l.of_task

    twice : (b : Bool) → not (not b) ≡ b
    twice true = refl
    twice false = refl

    -- After the callback for a log, the task's entry has the status that the log tells.
    pub callback_sync-log :
        (n : TaskMeta) (alive : Bool) (res : DriverResult) (r : Registry HT)
        → IsLog k alive res
        → look k r ≡ some n
        → (m : TaskMeta) × (look k (callback_sync HT mongodb_enabled now (res ∷ []) r) ≡ some m)
          × (m.status ≡ status_of alive)
    unfolding callback_sync sync_tagged sync_entry synced
    callback_sync-log n alive res r l e =
        let still : Bool = not (or_else false res.completed_flag) in
        (
          synced now still res n,
          ap (look k) (
                ap
                  (λ t.
                    sync_tagged HT mongodb_enabled (λ x. not (or_else false x.completed_flag)) now t
                      r)
                  (tagged-log alive res l)
                ∙ ap (λ o. sync_entry HT mongodb_enabled still now k res o r) e)
              ∙ find-register HT mongodb_enabled k k (synced now still res n) r
              ∙ ground (arith, eq_refl k),
          ap (λ (b : Option Bool). status_of (not (or_else false b))) l.ends
              ∙ ap status_of (twice alive),
        )
