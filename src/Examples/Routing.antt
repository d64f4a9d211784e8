-- ===== src/Examples/Routing.antt =====
-- A bulk of two devices, one of them with a command of its own.
use linux_net_x.Base.{String, ◌≡◌, refl, false, Option, none, some, List, [], ◌∷◌}
use linux_net_x.Nodes.{NodeInfo, Result, ok, raise, worker_unavailable}
use linux_net_x.Redis.{Hash}
use linux_net_x.Redis.Table.{table}
use linux_net_x.Manager.Dispatch.{pinned}
use linux_net_x.Manager.Execute.{Execution}
use linux_net_x.Detached.{TaskMeta}
use linux_net_x.Request.{DriverName, netmiko, Payload, text, Request}
use linux_net_x.Credentials.Vault.Provider.{model_copy}
use linux_net_x.Routes.Device.{
  Credentials, ExecRequest, BulkDevice, prepared_bulk, execute_on_bulk_devices_route,
}
use linux_net_x.Routes.Device.Coverage.{BulkSent, bulk_route-BulkSent}
use linux_net_x.Examples.Dispatching.{Names, Infos, config, workers, state}

abbrev Metas : Hash TaskMeta
Metas = table

abbrev choose_first : List NodeInfo → List String → Result (List (Option NodeInfo))
choose_first nodes [] = ok []
choose_first [] (h ∷ hosts) = raise worker_unavailable
choose_first (n ∷ nodes) (h ∷ hosts) = ok (some n ∷ none ∷ [])

abbrev no_credentials : Credentials
no_credentials = record { enabled = false; name = "vault_kv"; provider = λ name. none }

abbrev drivers : DriverName → Option (ExecRequest → Result (Unit {0}))
drivers name = some (λ req. ok tt)

abbrev request : Request
request = record {
  driver = netmiko;
  driver_args = false;
  keepalive = some 60;
  config = none;
  command = some (text "show version");
  file_transfer = false;
  rendering = false;
  queue_strategy = some pinned;
  detach = false;
  push_interval = none;
  staged_file_id = false;
}

abbrev execution : Execution
execution = record {
  host = "";
  queue_strategy = some pinned;
  detach = false;
  webhook = false;
  file_transfer = false;
  ttl = some 600;
  execution_timeout = none;
  result_ttl = none;
  push_interval = none;
}

abbrev base : ExecRequest
base = record {
  request = request;
  execution = execution;
  connection_args = λ field. none;
  credential = none;
}

abbrev device : String → Option Payload → BulkDevice
device host command = record {
  fields = ("host", host) ∷ [];
  command = command;
  config = none;
  file_transfer = none;
}

abbrev devices : List BulkDevice
devices = device "h" none ∷ device "h2" (some (text "show clock")) ∷ []

abbrev requests : List ExecRequest
requests =
    record base { connection_args = model_copy base.connection_args (("host", "h") ∷ []) }
    ∷ record base {
      request = record request { command = some (text "show clock") };
      connection_args = model_copy base.connection_args (("host", "h2") ∷ []);
    }
    ∷ []

are_prepared : prepared_bulk no_credentials drivers base devices ≡ ok requests
unfolding prepared_bulk
are_prepared = refl

bulk_route-BulkSent_example :
    BulkSent no_credentials drivers Names Infos Metas config workers choose_first base devices
      requests state
      (execute_on_bulk_devices_route no_credentials drivers Names Infos Metas config workers
        choose_first base devices state)
bulk_route-BulkSent_example =
    bulk_route-BulkSent no_credentials drivers Names Infos Metas config workers choose_first base
      devices requests state refl are_prepared
