-- ===== src/Rpc/Callback.antt =====
-- `rpc_webhook_callback` (linux_net/services/rpc.py): which webhook is sent when a job is over, and
-- the update of the registry. The clean-up of staged files, the audit and the URLs of downloads are
-- not part of it; a delivery that raises is ignored.
pub mod Events
pub mod Completion
use linux_net_x.Base.{
  ℕ, String, Bool, true, false, ◌&&◌, not, Option, none, some, List, [], ◌∷◌, any_of, if◌then◌else◌,
}
use linux_net_x.Nodes.{Result, ok, raise}
use linux_net_x.Redis.{Hash}
use linux_net_x.Request.{is_some}
use linux_net_x.Detached.{completed, TaskMeta, Registry, get, same_status}
use linux_net_x.Detached.Manage.{DriverResult, or_else, Device, query, manage, callback_sync}

pub data Event : Type 0 where
  log_push detached_completed job_completed job_failed : Event

-- The result of a job, or its failure.
pub data Outcome : Type 0 where
  succeeded : List DriverResult → Outcome
  failed : Outcome

-- What the callback reads of the job's meta and of the request.
pub record Meta : Type 0 where
  pub task_id : Option String
  pub webhook_event_type : Option Event
  pub webhook : Bool
  pub detach : Bool

-- What the webhook part does: it sends an event, sends none, or returns from the callback.
pub data Verdict : Type 0 where
  deliver : Event → Verdict
  skip return_early : Verdict

has_ended : DriverResult → Bool
has_ended res = not (or_else true res.is_running)

-- A push of the log is a completion if a result says that its task does not run.
upgrade : Event → Outcome → Event
unfolding has_ended
upgrade log_push (succeeded results) =
    if any_of has_ended results then detached_completed else log_push
upgrade e outcome = e

is_redundant : TaskMeta → Outcome → Bool
is_redundant m (succeeded []) = same_status m.status completed
is_redundant m _ = false

-- The entry of the registry decides for a detached task.
task_verdict : Event → Outcome → Option TaskMeta → Verdict
unfolding upgrade is_redundant
task_verdict hint outcome none = return_early
task_verdict hint outcome (some m) =
    if is_redundant m outcome then return_early else deliver (upgrade hint outcome)

job_verdict : Outcome → Verdict
job_verdict (succeeded results) = deliver job_completed
job_verdict failed = deliver job_failed

module _ (HT : Hash TaskMeta) (mongodb_enabled : Bool) where
  entry_of : Option String → Registry HT → Option TaskMeta
  unfolding get
  entry_of none r = none
  entry_of (some task_id) r = get HT task_id r

  hinted_verdict : Option Event → Option String → Outcome → Registry HT → Verdict
  unfolding task_verdict entry_of
  hinted_verdict none task_id outcome r = skip
  hinted_verdict (some hint) task_id outcome r = task_verdict hint outcome (entry_of task_id r)

  verdict : Meta → Outcome → Registry HT → Verdict
  unfolding hinted_verdict job_verdict
  verdict m outcome r =
      if not m.webhook
      then skip
      else if m.detach
      then hinted_verdict m.webhook_event_type m.task_id outcome r
      else job_verdict outcome

  sync : ℕ → Bool → Outcome → Registry HT → Registry HT
  unfolding callback_sync
  sync now true (succeeded results) r = callback_sync HT mongodb_enabled now results r
  sync now _ outcome r = r

  concluded : ℕ → Bool → Outcome → Verdict → Registry HT → Option Event × Registry HT
  unfolding sync
  concluded now detach outcome (deliver e) r = (some e, sync now detach outcome r)
  concluded now detach outcome skip r = (none, sync now detach outcome r)
  concluded now detach outcome return_early r = (none, r)

  -- `rpc_webhook_callback`: the event that is sent, and the registry.
  unfoldable pub webhook_callback : ℕ → Meta → Outcome → Registry HT → Option Event × Registry HT
  unfolding verdict concluded
  webhook_callback now m outcome r = concluded now m.detach outcome (verdict m outcome r) r

  -- The meta of a job that `_trigger_push` (linux_net/services/supervisor.py) dispatches.
  abbrev pub push_meta : String → Meta
  push_meta task_id = record {
    task_id = some task_id;
    webhook_event_type = some log_push;
    webhook = true;
    detach = true;
  }

  -- The callback of a push is called if the job succeeds.
  pub on_success :
      ℕ → String → Bool → Result (List DriverResult) × Registry HT → Option Event × Registry HT
  unfolding webhook_callback
  on_success now task_id called (raise e, r) = (none, r)
  on_success now task_id called (ok results, r) =
      if called then webhook_callback now (push_meta task_id) (succeeded results) r else (none, r)

  -- A job of `_trigger_push` on its worker: with its callback, or without one where the push has no
  -- webhook.
  unfoldable pub push_round : Bool → ℕ → Device → String → Registry HT → Option Event × Registry HT
  unfolding on_success
  push_round called now device task_id r =
      on_success now task_id called (manage HT mongodb_enabled device task_id now query none r r)

  pub record Round : Type 0 where
    pub called : Bool
    pub now : ℕ
    pub device : Device

  event_of : Option Event → List Event → List Event
  event_of none events = events
  event_of (some e) events = e ∷ events

  -- The events of one round after another.
  unfoldable pub events : String → List Round → Registry HT → List Event
  unfolding push_round event_of
  events task_id [] r = []
  events task_id (round ∷ rounds) r =
      let x = push_round round.called round.now round.device task_id r in
      event_of x.0 (events task_id rounds x.1)
