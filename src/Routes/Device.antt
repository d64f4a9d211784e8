-- ===== src/Routes/Device.antt =====
-- linux_net/routes/device.py, on requests that have been parsed. The plugins are parameters: the
-- credential providers and the drivers.
pub mod Expansion
pub mod Coverage
use linux_net_x.Base.{
  ℕ, String, Bool, true, false, ◌&&◌, not, Option, none, some, List, [], ◌∷◌, ◌++◌, map, str_eq,
  if◌then◌else◌,
}
use linux_net_x.Nodes.{NodeInfo, Result, ok, raise, value_error, ◌>>=◌}
use linux_net_x.Redis.{Hash}
use linux_net_x.Manager.{Config, WorkerInfo, Job, State}
use linux_net_x.Manager.Bulk.{FailedItem}
use linux_net_x.Manager.Execute.{Execution, execute_on_device, execute_on_bulk_devices}
use linux_net_x.Detached.{TaskMeta, Registry}
use linux_net_x.Request.{DriverName, Payload, Request, is_some}
use linux_net_x.Credentials.Vault.Provider.{Mapping, ConnectionArgs, model_copy}

pub record CredentialRef : Type 0 where
  pub name : Option String
  pub ref : String

-- An `ExecutionRequest`: what its validators read, what the Manager reads, and the connection.
pub record ExecRequest : Type 0 where
  pub request : Request
  pub execution : Execution
  pub connection_args : ConnectionArgs
  pub credential : Option CredentialRef

-- What the route asks of `g_config.credential` and of the provider that it names: a lookup, the
-- construction from a reference, and `resolve`.
pub record Credentials : Type 0 where
  pub enabled : Bool
  pub name : String
  pub provider : String → Option (CredentialRef → ConnectionArgs → Result ConnectionArgs)

module _ (creds : Credentials) where
  unfoldable pub resolve_by :
      Option (CredentialRef → ConnectionArgs → Result ConnectionArgs)
      → CredentialRef
      → ExecRequest
      → Result ExecRequest
  resolve_by none ref req = raise value_error
  resolve_by (some resolve) ref req = resolve ref req.connection_args >>= λ args.
      ok (record req { connection_args = args; credential = none })

  unfoldable pub name_of : CredentialRef → String
  name_of ref = elim ref.name [ none ↦ creds.name | some name ↦ name ]

  unfoldable pub resolve_ref : Option CredentialRef → ExecRequest → Result ExecRequest
  unfolding resolve_by name_of
  resolve_ref none req = ok req
  resolve_ref (some ref) req =
      if not creds.enabled
      then raise value_error
      else if not (str_eq (name_of ref) creds.name)
      then raise value_error
      else resolve_by (creds.provider (name_of ref)) (record ref { name = some (name_of ref) }) req

  unfoldable pub resolve_request_credentials : ExecRequest → Result ExecRequest
  unfolding resolve_ref
  resolve_request_credentials req = resolve_ref req.credential req

-- A device of a bulk request: the fields that it sets, and its own operation. A file transfer is
-- one more field of the dump.
pub record BulkDevice : Type 0 where
  pub fields : Mapping
  pub command : Option Payload
  pub config : Option Payload
  pub file_transfer : Option String

-- `model_dump` without the command and the configuration, which are taken out of it.
unfoldable pub device_dict : BulkDevice → Mapping
device_dict d = elim d.file_transfer [
  | none ↦ d.fields
  | some transfer ↦ d.fields ++ ("file_transfer", transfer) ∷ []
]

-- The operation of a device comes before that of the request.
unfoldable pub with_operation : Option Payload → Option Payload → Request → Request
with_operation (some command) config r = record r { command = some command; config = none }
with_operation none (some config) r = record r { config = some config; command = none }
with_operation none none r = r

unfoldable pub with_host :
    BulkDevice → ExecRequest → ConnectionArgs → Option String → Result ExecRequest
unfolding with_operation
with_host d base args none = raise value_error
with_host d base args (some host) = ok (record base {
  request = with_operation d.command d.config base.request;
  connection_args = args;
})

unfoldable pub expand_device : ExecRequest → BulkDevice → Result ExecRequest
unfolding with_host device_dict model_copy
expand_device base d =
    let args = model_copy base.connection_args (device_dict d) in
    if is_some d.command && is_some d.config
    then raise value_error
    else with_host d base args (args "host")

unfoldable pub expand : ExecRequest → List BulkDevice → Result (List ExecRequest)
unfolding expand_device
expand base [] = ok []
expand base (d ∷ ds) =
    let rest = expand base ds in expand_device base d >>= λ r. rest >>= λ rs. ok (r ∷ rs)

-- What the Manager reads of a request for a host.
unfoldable pub to_execution : ExecRequest → Execution
to_execution e = record e.execution {
  host = elim (e.connection_args "host") [ none ↦ "" | some host ↦ host ];
  queue_strategy = e.request.queue_strategy;
  detach = e.request.detach;
  file_transfer = e.request.file_transfer;
  push_interval = e.request.push_interval;
}

module _ (creds : Credentials)
    (drivers : DriverName → Option (ExecRequest → Result (Unit {0}))) where
  -- `drivers.get` and `dobj.validate`
  unfoldable pub validate_by :
      Option (ExecRequest → Result (Unit {0})) → ExecRequest → Result (Unit {0})
  validate_by none req = raise value_error
  validate_by (some validate) req = validate req

  unfoldable pub check_driver : ExecRequest → Result (Unit {0})
  unfolding validate_by
  check_driver req = validate_by (drivers req.request.driver) req

  unfoldable pub require_host : ExecRequest → Result ExecRequest
  require_host req = if is_some (req.connection_args "host") then ok req else raise value_error

  -- A request that reaches the Manager.
  unfoldable pub prepared : ExecRequest → Result ExecRequest
  unfolding check_driver require_host resolve_request_credentials
  prepared req =
      resolve_request_credentials creds req >>= require_host >>= λ r. check_driver r >>= λ _. ok r

  -- Only the first request of a bulk is shown to the driver.
  unfoldable pub first_checked : List ExecRequest → Result (List ExecRequest)
  unfolding check_driver
  first_checked [] = ok []
  first_checked (e ∷ es) = check_driver e >>= λ _. ok (e ∷ es)

  unfoldable pub prepared_bulk : ExecRequest → List BulkDevice → Result (List ExecRequest)
  unfolding expand first_checked resolve_request_credentials
  prepared_bulk base devices =
      resolve_request_credentials creds base >>= λ r. expand r devices >>= first_checked

  module _ (HS : Hash String) (HN : Hash NodeInfo) (HT : Hash TaskMeta) (c : Config)
      (workers : String → List WorkerInfo) where
    -- The endpoint `/device/exec`.
    execute_on_device_route :
        (List NodeInfo → String → Result NodeInfo)
        → Bool
        → String
        → ℕ
        → ExecRequest
        → State HS HN
        → Registry HT
        → Result Job × State HS HN × Registry HT
    unfolding prepared
    execute_on_device_route select mongodb_enabled task_id now req s registry =
        elim (prepared req) [
          | raise e ↦ (raise e, s, registry)
          | ok r ↦
              execute_on_device HS HN HT c workers select mongodb_enabled task_id now
                (to_execution r) s registry
        ]

    module _ (select : List NodeInfo → List String → Result (List (Option NodeInfo))) where
      -- Without a device nothing is asked of the Manager.
      unfoldable pub send_expanded :
          Result (List ExecRequest)
          → State HS HN
          → Result (List Job × List FailedItem) × State HS HN
      unfolding to_execution
      send_expanded (raise e) s = (raise e, s)
      send_expanded (ok []) s = (ok ([], []), s)
      send_expanded (ok (e ∷ es)) s =
          execute_on_bulk_devices HS HN HT c workers select (map to_execution (e ∷ es)) s

      -- The endpoint `/device/bulk`.
      unfoldable pub execute_on_bulk_devices_route :
          ExecRequest
          → List BulkDevice
          → State HS HN
          → Result (List Job × List FailedItem) × State HS HN
      unfolding send_expanded prepared_bulk
      execute_on_bulk_devices_route base devices s = send_expanded (prepared_bulk base devices) s

-- The endpoint `/device/test`: an exception of the driver's test is an answer without success.
-- `test` is `dobj.test`.
test_device_connection :
    {Info : Type 0} (creds : Credentials)
    → (DriverName → Option (ConnectionArgs → Result Info))
    → ExecRequest
    → Result (Bool × Option Info)
test_device_connection creds tests req = do
  r ← resolve_request_credentials creds req
  elim (tests r.request.driver) [
    | none ↦ raise value_error
    | some test ↦ elim (test r.connection_args) [
      | ok info ↦ ok (true, some info)
      | raise e ↦ ok (false, none)
    ]
  ]
