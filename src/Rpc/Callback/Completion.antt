-- ===== src/Rpc/Callback/Completion.antt =====
-- The webhook of a completed task, over the rounds of the supervisor.
use linux_net_x.Base.{
  ℕ, String, ◌≡◌, refl, sym, ap, subst, ◌∙◌, ◌⊎◌, inl, inr, Bool, true, false, Option, none, some,
  List, [], ◌∷◌, All, if◌then◌else◌, Option-cases, Bool-cases,
}
use linux_net_x.Nodes.{Error, ok, raise, value_error, job_operation}
use linux_net_x.Redis.{Hash}
use linux_net_x.Detached.{
  Status, running, completed, launching, TaskMeta, Registry, get, same_status,
}
use linux_net_x.Detached.Manage.{DriverResult, or_else, Device, query, manage, callback_sync}
use linux_net_x.Detached.Manage.Queries.{
  IsLog, manage-absent, manage-unconnected, manage-unread, manage-read, look-written,
  queried-status, callback_sync-log, from_of,
}
use linux_net_x.Rpc.Callback.{
  Event, detached_completed, succeeded, on_success, Round, event_of, events,
}
use linux_net_x.Rpc.Callback.Events.{
  look, called_back, event_for, called_back-log, round_of, finish, round-finish, round-over,
  events-over,
}

module _ (HT : Hash TaskMeta) (mongodb_enabled : Bool) (k : String) where
  -- A log that tells the end of the task, and what the later rounds send then.
  events-ended :
      (x : Round HT mongodb_enabled) (rounds : List (Round HT mongodb_enabled)) (res : DriverResult)
      (n : TaskMeta) (r : Registry HT)
      → IsLog k false res
      → look HT mongodb_enabled k r ≡ some n
      → n.status ≡ completed
      → let y = finish HT mongodb_enabled k x (ok (res ∷ []), r) in
        event_of HT mongodb_enabled y.0 (events HT mongodb_enabled k rounds y.1)
        ≡ (if x.called then detached_completed ∷ [] else [])
  unfolding on_success event_of
  events-ended x rounds res n r l e over = elim (Bool-cases x.called) [
    | inr c ↦ rw c (events-over HT mongodb_enabled k rounds n r e over)
    | inl c ↦
        let (m, f, s) = callback_sync-log HT mongodb_enabled x.device k x.now n false res r l e in
        rw c (
          ap
            (λ (y : Option Event × Registry HT).
              event_of HT mongodb_enabled y.0 (events HT mongodb_enabled k rounds y.1))
            (called_back-log HT mongodb_enabled k x.now false res n r l e)
          ∙ ap (◌∷◌ detached_completed) (events-over HT mongodb_enabled k rounds m _ f s))
  ]

  -- The round that first reads in the task's log that it has ended sends its completion, and no
  -- later round sends anything; but if that round has no callback, as the supervisor's own
  -- synchronisation and a client's query have none, the completion is never sent.
  pub events-of_ended_task :
      (x : Round HT mongodb_enabled) (rounds : List (Round HT mongodb_enabled)) (m : TaskMeta)
      (res : DriverResult) (r : Registry HT)
      → get HT k r ≡ some m
      → same_status m.status completed ≡ false
      → x.device.connects ≡ true
      → x.device.read_logs (or_else 0 m.last_offset) ≡ some (res ∷ [])
      → IsLog k false res
      → events HT mongodb_enabled k (x ∷ rounds) r
        ≡ (if x.called then detached_completed ∷ [] else [])
  unfolding events
  events-of_ended_task x rounds m res r e live up given l =
      ap
        (λ (y : Option Event × Registry HT).
          event_of HT mongodb_enabled y.0 (events HT mongodb_enabled k rounds y.1))
        (round-finish HT mongodb_enabled k x _ r
          (manage-read HT mongodb_enabled x.device k x.now m res r e live up given))
      ∙ events-ended x rounds res _ _ l (look-written HT mongodb_enabled x.device k x.now m res r)
          (queried-status HT mongodb_enabled x.device k x.now m false res l)

  -- A device whose answers to log queries are of the task, or fail.
  abbrev pub Logs : Round HT mongodb_enabled → Type 0
  Logs x =
      (offset : ℕ)
      → (x.device.read_logs offset ≡ none)
        ⊎ ((res : DriverResult) × (alive : Bool) × (x.device.read_logs offset ≡ some (res ∷ []))
            × IsLog k alive res)

  -- Where a round sends a completion, the task is completed in the registry.
  abbrev Settles : Option Event × Registry HT → Type 0
  Settles y =
      y.0 ≡ some detached_completed
      → (m : TaskMeta) × (look HT mongodb_enabled k y.1 ≡ some m) × (m.status ≡ completed)

  silent-Settles : (y : Option Event × Registry HT) (r : Registry HT) → y ≡ (none, r) → Settles y
  silent-Settles y r e h = let f : y.0 ≡ none = ap (λ (z : Option Event × Registry HT). z.0) e in cc

  round-raises :
      (x : Round HT mongodb_enabled) (err : Error) (r : Registry HT)
      → manage HT mongodb_enabled x.device k x.now query none r r ≡ (raise err, r)
      → Settles (round_of HT mongodb_enabled k x r)
  unfolding on_success
  round-raises x err r e =
      silent-Settles _ r (round-finish HT mongodb_enabled k x (raise err, r) r e)

  same_status-completed : (s : Status) → same_status s completed ≡ true → s ≡ completed
  same_status-completed completed h = refl
  same_status-completed running h = cc
  same_status-completed launching h = cc

  sent-Settles :
      (now : ℕ) (device : Device) (alive : Bool) (res : DriverResult) (n : TaskMeta)
      (r : Registry HT)
      → IsLog k alive res
      → look HT mongodb_enabled k r ≡ some n
      → Settles (
        some (event_for HT mongodb_enabled k alive),
        callback_sync HT mongodb_enabled now (res ∷ []) r,
      )
  sent-Settles now device true res n r l e h = cc
  sent-Settles now device false res n r l e h =
      callback_sync-log HT mongodb_enabled device k now n false res r l e

  called_back-Settles :
      (now : ℕ) (device : Device) (alive : Bool) (res : DriverResult) (n : TaskMeta)
      (r : Registry HT)
      → IsLog k alive res
      → look HT mongodb_enabled k r ≡ some n
      → Settles (called_back HT mongodb_enabled k now (succeeded (res ∷ [])) r)
  called_back-Settles now device alive res n r l e =
      subst (λ y. Settles y) (sym (called_back-log HT mongodb_enabled k now alive res n r l e))
        (sent-Settles now device alive res n r l e)

  finish-Settles :
      (x : Round HT mongodb_enabled) (alive : Bool) (res : DriverResult) (n : TaskMeta)
      (r : Registry HT)
      → IsLog k alive res
      → look HT mongodb_enabled k r ≡ some n
      → Settles (finish HT mongodb_enabled k x (ok (res ∷ []), r))
  unfolding on_success
  finish-Settles x alive res n r l e = elim (Bool-cases x.called) [
    | inr c ↦ rw c (silent-Settles _ r refl)
    | inl c ↦ rw c (called_back-Settles x.now x.device alive res n r l e)
  ]

  read-Settles :
      (x : Round HT mongodb_enabled) (m : TaskMeta) (r : Registry HT)
      → Logs x
      → look HT mongodb_enabled k r ≡ some m
      → same_status m.status completed ≡ false
      → x.device.connects ≡ true
      → Settles (round_of HT mongodb_enabled k x r)
  read-Settles x m r logs e live up = elim (logs (from_of HT mongodb_enabled x.device k x.now m)) [
    | inl f ↦
        round-raises x job_operation r
          (manage-unread HT mongodb_enabled x.device k x.now m r e live up f)
    | inr (res, alive, f, l) ↦
        subst (λ y. Settles y)
          (sym (
            round-finish HT mongodb_enabled k x _ r
              (manage-read HT mongodb_enabled x.device k x.now m res r e live up f)))
          (finish-Settles x alive res _ _ l
            (look-written HT mongodb_enabled x.device k x.now m res r))
  ]

  round-Settles :
      (x : Round HT mongodb_enabled) (r : Registry HT)
      → Logs x
      → Settles (round_of HT mongodb_enabled k x r)
  round-Settles x r logs = elim (Option-cases (look HT mongodb_enabled k r)) [
    | inl e ↦ round-raises x value_error r (manage-absent HT mongodb_enabled x.device k x.now r e)
    | inr (m, e) ↦ elim (Bool-cases (same_status m.status completed)) [
      | inl s ↦
          silent-Settles _ r
            (round-over HT mongodb_enabled k x m r e (same_status-completed m.status s))
      | inr live ↦ elim (Bool-cases x.device.connects) [
        | inl up ↦ read-Settles x m r logs e live up
        | inr down ↦
            round-raises x job_operation r
              (manage-unconnected HT mongodb_enabled x.device k x.now m r e live down)
      ]
    ]
  ]

  -- Nothing follows a completion.
  abbrev pub LastOnly : List Event → Type 0
  LastOnly [] = Unit
  LastOnly (e ∷ es) = (e ≡ detached_completed → es ≡ []) × LastOnly es

  -- Over any rounds of the supervisor on devices whose logs are those of the task, or fail, at most
  -- one completion is sent, and nothing after it.
  pub events-LastOnly :
      (rounds : List (Round HT mongodb_enabled)) (r : Registry HT)
      → All Logs rounds
      → LastOnly (events HT mongodb_enabled k rounds r)
  unfolding events event_of
  events-LastOnly [] r logs = tt
  events-LastOnly (x ∷ rounds) r (l, logs) =
      elim (Option-cases (round_of HT mongodb_enabled k x r).0) [
        | inl e ↦ rw e (events-LastOnly rounds _ logs)
        | inr (event, e) ↦ rw e (
          (λ q.
              let (m, f, s) = round-Settles x r l (e ∙ ap some q) in
              events-over HT mongodb_enabled k rounds m _ f s),
          events-LastOnly rounds _ logs,
        )
      ]
