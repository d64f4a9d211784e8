-- ===== src/Detached.antt =====
-- Detached tasks: `DetachedTaskRegistry` (linux_net/services/rediz.py), the listing and clearing of
-- `Manager`, and the supervisor's sweep (linux_net/services/supervisor.py).
-- Times are in microseconds; a time that the clock returns is an argument.
pub mod Sweep
pub mod Manage
use linux_net_x.Base.{
  ℕ, ◌+◌, ◌*◌, String, Bool, true, false, ◌&&◌, ◌||◌, not, Option, none, some, List, [], ◌∷◌, ◌++◌,
  map, keep, ltb, leb, ◌==◌, str_eq, if◌then◌else◌, length,
}
use linux_net_x.Redis.{Hash, hdel_all}

pub data Status : Type 0 where
  launching running completed : Status

-- The entries of a task's metadata that the control plane reads.
pub record TaskMeta : Type 0 where
  pub status : Status
  pub last_sync : Option ℕ
  pub created_at : Option ℕ
  pub push_interval : Option ℕ
  pub webhook : Bool
  pub last_offset : Option ℕ
  pub host : String

abbrev pub second : ℕ
second = 1_000_000

abbrev pub is_lifecycle : Status → Bool
is_lifecycle launching = true
is_lifecycle completed = true
is_lifecycle running = false

abbrev pub same_status : Status → Status → Bool
same_status launching launching = true
same_status running running = true
same_status completed completed = true
same_status _ _ = false

module _ (HT : Hash TaskMeta) where
  -- The registry's hash, and the audit jobs that have been put on `AuditLogQ`.
  pub record Registry : Type 0 where
    pub table : HT.Table
    pub audits : List (String × TaskMeta)

  -- `DetachedTaskRegistry.register`
  unfoldable pub register : Bool → String → TaskMeta → Registry → Registry
  register mongodb_enabled task_id meta r = record {
    table = HT.hset r.table task_id meta;
    audits =
        if mongodb_enabled && is_lifecycle meta.status
        then r.audits ++ (task_id, meta) ∷ []
        else r.audits;
  }

  -- `get`, `unregister`, `list_all`
  unfoldable pub get : String → Registry → Option TaskMeta
  get task_id r = HT.hget r.table task_id

  unfoldable pub unregister : String → Registry → Registry
  unregister task_id r = record r { table = HT.hdel r.table task_id }

  unfoldable pub list_all : Registry → List (String × TaskMeta)
  list_all r = HT.hscan r.table

  -- `Manager.list_detached_tasks`
  unfoldable pub list_detached_tasks : Option Status → Registry → List (String × TaskMeta)
  unfolding list_all
  list_detached_tasks none r = list_all r
  list_detached_tasks (some status) r = keep (λ e. same_status e.1.status status) (list_all r)

  unfoldable pub unregister_each : List (String × TaskMeta) → Registry → Registry
  unfolding unregister
  unregister_each [] r = r
  unregister_each ((k, m) ∷ tasks) r = unregister_each tasks (unregister k r)

  -- `Manager.clear_detached_tasks`
  unfoldable pub clear_detached_tasks : Registry → ℕ × Registry
  unfolding list_all unregister_each
  clear_detached_tasks r = let tasks = list_all r in (length tasks, unregister_each tasks r)

-- `self._last_dispatch.get(task_id, 0)`, `.pop(task_id, None)` and the assignment.
abbrev pub Dispatches : Type 0
Dispatches = List (String × ℕ)

unfoldable pub last_dispatch : String → Dispatches → ℕ
last_dispatch k [] = 0
last_dispatch k ((j, t) ∷ d) = if str_eq j k then t else last_dispatch k d

unfoldable pub forget : String → Dispatches → Dispatches
forget k [] = []
forget k ((j, t) ∷ d) = let rest = forget k d in if str_eq j k then rest else (j, t) ∷ rest

unfoldable pub note_dispatch : String → ℕ → Dispatches → Dispatches
unfolding forget
note_dispatch k t d = (k, t) ∷ forget k d

-- Stale completed tasks (5 minutes) and stuck launching tasks (10 minutes).
unfoldable pub is_purged : ℕ → TaskMeta → Bool
is_purged now m = elim m.status [
  | completed ↦ ltb ((elim m.last_sync [ none ↦ 0 | some t ↦ t ]) + 300 * second) now
  | launching ↦ ltb ((elim m.created_at [ none ↦ now | some t ↦ t ]) + 600 * second) now
  | running ↦ false
]

-- What the second half of a round does: nothing, or a push, with or without the webhook.
pub data Push : Type 0 where
  no_push : Push
  trigger : (webhook : Bool) → Push

unfoldable pub auto_sync : ℕ → TaskMeta → ℕ → Push
auto_sync now m last =
    if same_status m.status running && leb (last + 600 * second) now then trigger false else no_push

unfoldable pub push_due : ℕ → TaskMeta → ℕ → Push
unfolding auto_sync
push_due now m last = elim m.push_interval [
  | none ↦ auto_sync now m last
  | some interval ↦
      if interval == 0
      then auto_sync now m last
      else if not (same_status m.status completed) && leb (last + interval * second) now
      then trigger true
      else no_push
]

module _ (HT : Hash TaskMeta) where
  -- The supervisor's state: the registry, its own dispatch times, and the jobs dispatched so far,
  -- each with whether its result is sent to the task's webhook.
  pub record Supervisor : Type 0 where
    pub registry : Registry HT
    pub dispatches : Dispatches
    pub pushed : List (String × Bool)

  -- `_trigger_push`. `sent` is the time at which the dispatch returned, `none` if it raised.
  unfoldable pub trigger_push : Option ℕ → String → TaskMeta → Bool → Supervisor → Supervisor
  unfolding note_dispatch
  trigger_push none k m webhook s = s
  trigger_push (some t) k m webhook s = record s {
    dispatches = note_dispatch k t s.dispatches;
    pushed = s.pushed ++ (k, webhook && m.webhook) ∷ [];
  }

  unfoldable pub push : Option ℕ → String → TaskMeta → Push → Supervisor → Supervisor
  unfolding trigger_push
  push sent k m no_push s = s
  push sent k m (trigger webhook) s = trigger_push sent k m webhook s

  unfoldable pub purge : String → Supervisor → Supervisor
  unfolding unregister forget
  purge k s = record s { registry = unregister HT k s.registry; dispatches = forget k s.dispatches }

  -- One round of the loop in `_check_tasks`.
  unfoldable pub check_task : ℕ → (String → Option ℕ) → String → TaskMeta → Supervisor → Supervisor
  check_task now sent k m s =
      if is_purged now m
      then purge k s
      else push (sent k) k m (push_due now m (last_dispatch k s.dispatches)) s

  unfoldable pub check_each :
      ℕ → (String → Option ℕ) → List (String × TaskMeta) → Supervisor → Supervisor
  check_each now sent [] s = s
  check_each now sent ((k, m) ∷ tasks) s = check_each now sent tasks (check_task now sent k m s)

  -- `_check_tasks`
  unfoldable pub check_tasks : ℕ → (String → Option ℕ) → Supervisor → Supervisor
  unfolding list_all
  check_tasks now sent s = check_each now sent (list_all HT s.registry) s
