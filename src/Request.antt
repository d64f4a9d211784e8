-- ===== src/Request.antt =====
-- linux_net/models/request.py: the validators of `ExecutionRequest`, in the order in which pydantic
-- runs them. The fields are those that they read; of most only the presence is kept.
pub mod Validity
use linux_net_x.Base.{
  ℕ, String, Bool, true, false, ◌&&◌, ◌||◌, not, Option, none, some, List, if◌then◌else◌,
}
use linux_net_x.Nodes.{Result, ok, raise, value_error, ◌>>=◌}
use linux_net_x.Manager.Dispatch.{QueueStrategy, fifo, pinned}

-- linux_net/models/common.py
pub data DriverName : Type 0 where
  napalm netmiko paramiko pyeapi : DriverName

pub data Payload : Type 0 where
  dict : Payload
  lines : List String → Payload
  text : String → Payload

pub record Request : Type 0 where
  pub driver : DriverName
  pub driver_args : Bool
  pub keepalive : Option ℕ
  pub config : Option Payload
  pub command : Option Payload
  pub file_transfer : Bool
  pub rendering : Bool
  pub queue_strategy : Option QueueStrategy
  pub detach : Bool
  pub push_interval : Option ℕ
  pub staged_file_id : Bool

abbrev pub is_some {ℓ} : {A : Type ℓ} → Option A → Bool
is_some none = false
is_some (some x) = true

abbrev pub is_paramiko : DriverName → Bool
is_paramiko paramiko = true
is_paramiko _ = false

abbrev pub is_netmiko : DriverName → Bool
is_netmiko netmiko = true
is_netmiko _ = false

abbrev pub is_dict : Option Payload → Bool
is_dict (some dict) = true
is_dict _ = false

unfoldable pub check_detach_args : Request → Result Request
check_detach_args r =
    if is_some r.push_interval && not r.detach
    then raise value_error
    else if r.detach && not (is_paramiko r.driver)
    then raise value_error
    else ok r

unfoldable pub check_file_transfer_args : Request → Result Request
check_file_transfer_args r =
    if r.file_transfer && not (is_paramiko r.driver || is_netmiko r.driver)
    then raise value_error
    else ok r

unfoldable pub check_exclusive_fields : Request → Result Request
check_exclusive_fields r =
    let is_actionable = r.file_transfer || r.driver_args || r.staged_file_id in
    if is_some r.config && is_some r.command
    then raise value_error
    else if not (is_some r.config) && not (is_some r.command) && not is_actionable
    then raise value_error
    else ok r

-- `self.config if self.config is not None else self.command`
abbrev pub valid_payload : Request → Option Payload
valid_payload r = if is_some r.config then r.config else r.command

unfoldable pub check_payload_type : Request → Result Request
check_payload_type r =
    if is_dict (valid_payload r) && not r.rendering then raise value_error else ok r

unfoldable pub default_strategy : Request → QueueStrategy
default_strategy r = if r.detach then pinned else if is_netmiko r.driver then pinned else fifo

-- `keepalive` is 60 s for a pinned request that does not set it.
unfoldable pub keepalive_of : QueueStrategy → Option ℕ → Option ℕ
keepalive_of fifo keepalive = keepalive
keepalive_of pinned none = some 60
keepalive_of pinned (some t) = some t

unfoldable pub strategy_of : Option QueueStrategy → Request → QueueStrategy
unfolding default_strategy
strategy_of none r = default_strategy r
strategy_of (some strategy) r = strategy

unfoldable pub infer_defaults : Request → Result Request
unfolding strategy_of keepalive_of
infer_defaults r =
    let strategy = strategy_of r.queue_strategy r in
    ok (record r { queue_strategy = some strategy; keepalive = keepalive_of strategy r.keepalive })

unfoldable pub validate : Request → Result Request
validate r =
    check_detach_args r
    >>= check_file_transfer_args
    >>= check_exclusive_fields
    >>= check_payload_type
    >>= infer_defaults
