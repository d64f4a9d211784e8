-- ===== src/Examples/Jobs.antt =====
-- Runs of requests on a worker, and the webhooks of a detached task.
use linux_net_x.Base.{
  String, ◌≡◌, refl, inr, true, false, none, some, [], ◌∷◌, if◌then◌else◌, text_append,
}
use linux_net_x.Nodes.{ok}
use linux_net_x.Redis.{Hash}
use linux_net_x.Redis.Table.{table, lookup}
use linux_net_x.Detached.{TaskMeta, running, Registry, get}
use linux_net_x.Detached.Manage.{DriverResult, Device}
use linux_net_x.Detached.Manage.Queries.{IsLog}
use linux_net_x.Rpc.Execute.{CommandResult, returned, raised, Call, Templates, Plugin, execute}
use linux_net_x.Rpc.Execute.Runs.{IsSafe, execute-IsSafe}
use linux_net_x.Rpc.Execute.Answers.{templated}
use linux_net_x.Rpc.Callback.{Round, events, detached_completed}
use linux_net_x.Rpc.Callback.Completion.{Logs, LastOnly, events-LastOnly, events-of_ended_task}

abbrev Metas : Hash TaskMeta
Metas = table

-- A template is followed by its context.
abbrev templates : Templates String
templates = record {
  empty = "";
  filled = λ c. true;
  update = λ old new. new;
  render = λ t c. ok (text_append t c);
  parse = λ s. ok s;
}

abbrev shown : CommandResult
shown = record {
  command = "show version";
  stdout = "1.0";
  stderr = "";
  exit_status = 0;
  is_running = none;
  parsed = none;
}

abbrev plugin : Plugin String
plugin = record {
  init = λ c. none;
  connect = none;
  launch = λ command k. returned [];
  send = λ payload. returned (shown ∷ []);
  configure = λ payload. raised "refused";
}

abbrev broken : Plugin String
broken = record plugin { connect = some "no route to host" }

abbrev show : Call String
show = templated String templates Metas false 7 plugin "t1" "version" "show " none true

abbrev no_tasks : Registry Metas
no_tasks = record { table = []; audits = [] }

execute-IsSafe_example :
    IsSafe String templates Metas false 7 plugin "t1"
      (execute String templates Metas false 7 plugin "t1" show no_tasks)
      no_tasks
execute-IsSafe_example = execute-IsSafe String templates Metas false 7 plugin "t1" show no_tasks

abbrev plain : Call String
plain = record show { rendering = none; command = none }

abbrev task : TaskMeta
task = record {
  status = running;
  last_sync = some 5;
  created_at = some 1;
  push_interval = some 30;
  webhook = true;
  last_offset = some 10;
  host = "h";
}

abbrev registry : Registry Metas
registry = record { table = ("t1", task) ∷ []; audits = [] }

abbrev last_log : DriverResult
last_log = record {
  exit_status = 0;
  task_id = some "t1";
  next_offset = some 20;
  is_running = some false;
  completed_flag = some true;
  active_tasks = none;
}

last_log-IsLog : IsLog "t1" false last_log
last_log-IsLog = record { of_task = refl; runs = refl; ends = refl }

abbrev device : Device
device = record { connects = true; read_logs = λ offset. some (last_log ∷ []); kill_task = none }

abbrev round : Round Metas false
round = record { called = true; now = 7; device = device }

task_found : get Metas "t1" registry ≡ some task
unfolding get lookup
task_found = refl

device-Logs : Logs Metas false "t1" round
device-Logs offset = inr (last_log, false, refl, last_log-IsLog)

events-LastOnly_example :
    LastOnly Metas false "t1" (events Metas false "t1" (round ∷ round ∷ []) registry)
events-LastOnly_example =
    events-LastOnly Metas false "t1" (round ∷ round ∷ []) registry (device-Logs, (device-Logs, tt))

events-of_ended_task_example :
    events Metas false "t1" (round ∷ round ∷ []) registry
    ≡ (if round.called then detached_completed ∷ [] else [])
events-of_ended_task_example =
    events-of_ended_task Metas false "t1" round (round ∷ []) task last_log registry task_found refl
      refl refl last_log-IsLog
