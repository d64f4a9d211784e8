-- ===== src/Examples/Managing.antt =====
-- One detached task of a host that a live node owns: its queries, its kill, and a discovery.
use linux_net_x.Base.{
  String, ◌≡◌, ◌≢◌, refl, inr, true, false, none, some, List, [], ◌∷◌, eq_iff, arith,
}
use linux_net_x.Nodes.{ok}
use linux_net_x.Redis.{Hash}
use linux_net_x.Redis.Table.{table, lookup, scan, without}
use linux_net_x.Manager.{Job, Func, execute, make_job, host_queue_name, manage_detached_task}
use linux_net_x.Manager.Dispatch.Laws.{dispatch_to_assigned}
use linux_net_x.Detached.{TaskMeta, running, completed, Registry, get, list_all}
use linux_net_x.Detached.Manage.{
  DriverResult, Device, query, Poll, management_args, query_dispatched, await_query, query_status,
  discovery_dispatched, await_discovery, discovered, sync_off, finished, pending, tagged, manage,
  dispatch_management, query_detached_task, discover_detached_tasks,
}
use linux_net_x.Detached.Manage.Effects.{find, manage-OnlyPresent}
use linux_net_x.Detached.Manage.Discovery.{Discovered, discover_detached_tasks-marks}
use linux_net_x.Examples.Dispatching.{
  Names, Infos, config, workers, choose, state, n1, n1_owns_host, queue_is_alive,
}

abbrev Metas : Hash TaskMeta
Metas = table

abbrev task : TaskMeta
task = record {
  status = running;
  last_sync = some 5;
  created_at = some 1;
  push_interval = none;
  webhook = false;
  last_offset = some 10;
  host = "h";
}

abbrev registry : Registry Metas
registry = record { table = ("t1", task) ∷ []; audits = [] }

abbrev log_of_task : DriverResult
log_of_task = record {
  exit_status = 0;
  task_id = some "t1";
  next_offset = some 20;
  is_running = some false;
  completed_flag = some true;
  active_tasks = none;
}

abbrev kill_failed : DriverResult
kill_failed = record {
  exit_status = 1;
  task_id = none;
  next_offset = none;
  is_running = none;
  completed_flag = none;
  active_tasks = none;
}

abbrev nothing_active : DriverResult
nothing_active = record kill_failed { exit_status = 0; active_tasks = some [] }

abbrev device : Device
device = record { connects = true; read_logs = λ offset. some (log_of_task ∷ []); kill_task = none }

task_found : find Metas false "t1" registry ≡ some task
unfolding get lookup
task_found = refl

log_names_task : tagged (log_of_task ∷ []) ≡ some ("t1", log_of_task)
unfolding tagged
log_names_task = refl

-- The task has been removed while the device was queried.
abbrev emptied : Registry Metas
emptied = record { table = []; audits = [] }

gone : find Metas false "t1" emptied ≡ none
unfolding get lookup
gone = refl

manage-OnlyPresent_example :
    find Metas false "t1" (manage Metas false device "t1" 7 query none registry emptied).1
    ≡ find Metas false "t1" emptied
manage-OnlyPresent_example =
    manage-OnlyPresent Metas false device "t1" "t1" 7 query none registry emptied (inr gone)

abbrev job : Job
job = make_job config management_args (host_queue_name "h") manage_detached_task

h_is_named : ◌≢◌ {A = String} "h" ""
h_is_named e = ground (arith, (eq_iff "h" "").1 e)

management_sent :
    (func : Func)
    → (dispatch_management Metas false Names Infos config workers choose func "h" state).0
      ≡ ok (make_job config management_args (host_queue_name "h") func)
unfolding dispatch_management
management_sent func =
    (dispatch_to_assigned Names Infos config workers choose management_args func "h" n1 state
      h_is_named n1_owns_host (queue_is_alive n1.queue)).0

abbrev query_polls : List Poll
query_polls = pending ∷ finished (log_of_task ∷ []) ∷ []

query_answers :
    (query_detached_task Metas false Names Infos config workers choose "t1" 7 query_polls registry
      state registry).0
    ≡ ok (completed, log_of_task ∷ [])
unfolding query_detached_task query_dispatched await_query query_status tagged get lookup
query_answers = rw (management_sent manage_detached_task) refl

-- A query of a completed task finds no new log, and answers that the task is running.
query_of_completed_task :
    (query_detached_task Metas false Names Infos config workers choose "t1" 7
      (finished [] ∷ [])
      registry
      state
      registry).0
    ≡ ok (running, [])
unfolding query_detached_task query_dispatched await_query query_status tagged get lookup
query_of_completed_task = rw (management_sent manage_detached_task) refl

abbrev discovery_polls : List Poll
discovery_polls = finished (nothing_active ∷ []) ∷ []

discovery_answers :
    (discover_detached_tasks Metas false Names Infos config workers choose 7 "h" discovery_polls
      state registry).0
    ≡ ok (0, 1)
unfolding discover_detached_tasks discovery_dispatched await_discovery discovered sync_off list_all
    scan without
discovery_answers = rw (management_sent (execute 0)) refl

discover_detached_tasks-marks_example :
    Discovered Metas false 7 "h"
      (0, 1)
      discovery_polls
      registry
      (discover_detached_tasks Metas false Names Infos config workers choose 7 "h" discovery_polls
        state registry).2
discover_detached_tasks-marks_example =
    discover_detached_tasks-marks Metas false 7 "h" Names Infos config workers choose
      discovery_polls state registry (0, 1) discovery_answers
