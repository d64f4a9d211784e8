-- ===== src/Rpc/Callback/Events.antt =====
-- The webhooks of a detached task, over the rounds of the supervisor.
use linux_net_x.Base.{
  ℕ, String, ◌≡◌, refl, ap, ◌∙◌, inl, inr, Bool, true, false, Option, none, some, List, [], ◌∷◌,
  if◌then◌else◌, Bool-cases,
}
use linux_net_x.Nodes.{Result, ok}
use linux_net_x.Redis.{Hash}
use linux_net_x.Detached.{Status, completed, TaskMeta, Registry, same_status}
use linux_net_x.Detached.Manage.{DriverResult, query, manage, callback_sync}
use linux_net_x.Detached.Manage.Effects.{find}
use linux_net_x.Detached.Manage.Queries.{IsLog, manage-over}
use linux_net_x.Rpc.Callback.{
  Event, log_push, detached_completed, Outcome, succeeded, deliver, return_early, has_ended,
  upgrade, is_redundant, task_verdict, entry_of, hinted_verdict, verdict, sync, concluded,
  webhook_callback, push_meta, on_success, push_round, Round, event_of, events,
}

module _ (HT : Hash TaskMeta) (mongodb_enabled : Bool) (k : String) where
  abbrev pub look : Registry HT → Option TaskMeta
  look = find HT mongodb_enabled k

  abbrev pub called_back : ℕ → Outcome → Registry HT → Option Event × Registry HT
  called_back now outcome r =
      webhook_callback HT mongodb_enabled now (push_meta HT mongodb_enabled k) outcome r

  pushed_verdict :
      (outcome : Outcome) (r : Registry HT)
      → verdict HT mongodb_enabled (push_meta HT mongodb_enabled k) outcome r
        ≡ task_verdict log_push outcome (look r)
  unfolding verdict hinted_verdict entry_of
  pushed_verdict outcome r = refl

  -- The event of a log.
  abbrev pub event_for : Bool → Event
  event_for alive = if alive then log_push else detached_completed

  upgrade-log :
      (alive : Bool) (res : DriverResult)
      → IsLog k alive res
      → upgrade log_push (succeeded (res ∷ [])) ≡ event_for alive
  unfolding upgrade has_ended
  upgrade-log true res l = rw l.runs refl
  upgrade-log false res l = rw l.runs refl

  verdict-log :
      (alive : Bool) (res : DriverResult) (n : TaskMeta) (r : Registry HT)
      → IsLog k alive res
      → look r ≡ some n
      → verdict HT mongodb_enabled (push_meta HT mongodb_enabled k) (succeeded (res ∷ [])) r
        ≡ deliver (event_for alive)
  unfolding task_verdict is_redundant
  verdict-log alive res n r l e =
      pushed_verdict (succeeded (res ∷ [])) r
      ∙ ap (task_verdict log_push (succeeded (res ∷ []))) e
      ∙ ap deliver (upgrade-log alive res l)

  pub called_back-log :
      (now : ℕ) (alive : Bool) (res : DriverResult) (n : TaskMeta) (r : Registry HT)
      → IsLog k alive res
      → look r ≡ some n
      → called_back now (succeeded (res ∷ [])) r
        ≡ (some (event_for alive), callback_sync HT mongodb_enabled now (res ∷ []) r)
  unfolding webhook_callback concluded sync
  called_back-log now alive res n r l e =
      ap (λ v. concluded HT mongodb_enabled now true (succeeded (res ∷ [])) v r)
        (verdict-log alive res n r l e)

  verdict-over :
      (m : TaskMeta) (r : Registry HT)
      → look r ≡ some m
      → m.status ≡ completed
      → verdict HT mongodb_enabled (push_meta HT mongodb_enabled k) (succeeded []) r ≡ return_early
  unfolding task_verdict is_redundant
  verdict-over m r e over =
      pushed_verdict (succeeded []) r
      ∙ ap (task_verdict log_push (succeeded [])) e
      ∙ ap
          (λ (s : Status).
            if same_status s completed
            then return_early
            else deliver (upgrade log_push (succeeded [])))
          over

  abbrev pub round_of : Round HT mongodb_enabled → Registry HT → Option Event × Registry HT
  round_of x r = push_round HT mongodb_enabled x.called x.now x.device k r

  abbrev pub finish :
      Round HT mongodb_enabled
      → Result (List DriverResult) × Registry HT
      → Option Event × Registry HT
  finish x y = on_success HT mongodb_enabled x.now k x.called y

  pub round-finish :
      (x : Round HT mongodb_enabled) (y : Result (List DriverResult) × Registry HT)
      (r : Registry HT)
      → manage HT mongodb_enabled x.device k x.now query none r r ≡ y
      → round_of x r ≡ finish x y
  unfolding push_round
  round-finish x y r e = ap (finish x) e

  finish-over :
      (x : Round HT mongodb_enabled) (m : TaskMeta) (r : Registry HT)
      → look r ≡ some m
      → m.status ≡ completed
      → finish x (ok [], r) ≡ (none, r)
  unfolding on_success webhook_callback concluded
  finish-over x m r e over = elim (Bool-cases x.called) [
    | inl c ↦ rw c (
        ap (λ v. concluded HT mongodb_enabled x.now true (succeeded []) v r)
          (verdict-over m r e over))
    | inr c ↦ rw c refl
  ]

  pub round-over :
      (x : Round HT mongodb_enabled) (m : TaskMeta) (r : Registry HT)
      → look r ≡ some m
      → m.status ≡ completed
      → round_of x r ≡ (none, r)
  round-over x m r e over =
      round-finish x (ok [], r) r (manage-over HT mongodb_enabled x.device k x.now m r e over)
      ∙ finish-over x m r e over

  -- Nothing is sent of a task that the registry holds as completed.
  pub events-over :
      (rounds : List (Round HT mongodb_enabled)) (m : TaskMeta) (r : Registry HT)
      → look r ≡ some m
      → m.status ≡ completed
      → events HT mongodb_enabled k rounds r ≡ []
  unfolding events event_of
  events-over [] m r e over = refl
  events-over (x ∷ rounds) m r e over =
      ap
        (λ (y : Option Event × Registry HT).
          event_of HT mongodb_enabled y.0 (events HT mongodb_enabled k rounds y.1))
        (round-over x m r e over)
      ∙ events-over rounds m r e over
