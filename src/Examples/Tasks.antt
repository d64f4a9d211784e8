-- ===== src/Examples/Tasks.antt =====
-- Detached tasks, webhook retries and requests.
use linux_net_x.Base.{
  ℕ, String, ◌≡◌, ◌≢◌, ◌↔◌, refl, Bool, true, false, none, some, [], ◌∷◌, arith, ◌==◌,
  if◌then◌else◌,
}
use linux_net_x.Nodes.{ok}
use linux_net_x.Redis.{Hash}
use linux_net_x.Redis.Table.{table, lookup}
use linux_net_x.Detached.{TaskMeta, completed, Registry, Supervisor, is_purged, check_tasks}
use linux_net_x.Detached.Sweep.{check_tasks-entry}
use linux_net_x.Webhook.{WebHook, dispatch_webhook_with_retry}
use linux_net_x.Webhook.Attempts.{chain, tries, retries_of_webhook}
use linux_net_x.Manager.Dispatch.{pinned}
use linux_net_x.Request.{
  Request, netmiko, lines, validate, strategy_of, keepalive_of, default_strategy, check_detach_args,
  check_file_transfer_args, check_exclusive_fields, check_payload_type, infer_defaults,
}
use linux_net_x.Request.Validity.{IsValid, with_defaults, validate_iff}

abbrev Metas : Hash TaskMeta
Metas = table

abbrev old_task : TaskMeta
old_task = record {
  status = completed;
  last_sync = some 5;
  created_at = some 1;
  push_interval = none;
  webhook = false;
  last_offset = none;
  host = "h";
}

abbrev registry : Registry Metas
registry = record { table = ("t1", old_task) ∷ []; audits = [] }

abbrev supervisor : Supervisor Metas
supervisor = record { registry = registry; dispatches = []; pushed = [] }

abbrev later : ℕ
later = 400_000_000

old_task_found : Metas.hget supervisor.registry.table "t1" ≡ some old_task
unfolding lookup
old_task_found = refl

check_tasks-entry_example :
    Metas.hget (check_tasks Metas later (λ k. none) supervisor).registry.table "t1"
    ≡ (if is_purged later old_task then none else some old_task)
check_tasks-entry_example =
    check_tasks-entry Metas later (λ k. none) supervisor "t1" old_task old_task_found

abbrev hook : WebHook ℕ 10 String
hook = record { max_retries = 3; retry_intervals = 10 ∷ 30 ∷ [] }

has_intervals : hook.retry_intervals ≢ []
has_intervals e = cc

-- The second retry succeeds.
abbrev second_retry : ℕ → Bool
second_retry n = n == 2

retries_of_webhook_example :
    chain ℕ 10 String hook "{}" second_retry 5
      (dispatch_webhook_with_retry ℕ 10 String false (some hook) (some "{}") true [])
    ≡ tries ℕ 10 String hook "{}" second_retry 2 1
retries_of_webhook_example =
    retries_of_webhook ℕ 10 String hook "{}" second_retry 2 5 has_intervals refl (omega arith)

abbrev request : Request
request = record {
  driver = netmiko;
  driver_args = false;
  keepalive = none;
  config = none;
  command = some (lines ("show version" ∷ []));
  file_transfer = false;
  rendering = false;
  queue_strategy = none;
  detach = false;
  push_interval = none;
  staged_file_id = false;
}

abbrev answer : Request
answer = record request { queue_strategy = some pinned; keepalive = some 60 }

request_accepted : validate request ≡ ok answer
unfolding validate check_detach_args check_file_transfer_args check_exclusive_fields
    check_payload_type infer_defaults strategy_of keepalive_of default_strategy
request_accepted = refl

validate_iff_example :
    (validate request ≡ ok answer) ↔ (IsValid request × (answer ≡ with_defaults request))
validate_iff_example = validate_iff request answer
