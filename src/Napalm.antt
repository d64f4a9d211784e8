-- ===== src/Napalm.antt =====
-- `NapalmDriver.send` and `NapalmDriver.config` (linux_net/plugins/drivers/napalm/__init__.py). The
-- driver of napalm is a parameter, with what a call that raises leaves on the device.
pub mod Outcomes
use linux_net_x.Base.{
  ℕ, ◌+◌, String, Bool, true, false, Option, none, some, List, [], ◌∷◌, ◌++◌, str_eq, text_append,
  if◌then◌else◌,
}
use linux_net_x.Nodes.{Result, ok, raise, value_error}
use linux_net_x.Rpc.Execute.{CommandResult, join_lines, Try, returned, raised}

-- The calls of a `NetworkDriver`; `method` is any of its own methods.
pub data DriverCall : Type 0 where
  open_session compare_config discard_config commit_config : DriverCall
  load_merge_candidate cli method : String → DriverCall

-- The device: the candidate that is loaded, and the configurations that have been committed.
pub record NapalmState : Type 0 where
  pub calls : ℕ
  pub candidate : Option String
  pub committed : List String

pub record NetworkDriver : Type 0 where
  pub raises : NapalmState → DriverCall → Option String
  pub has_method : String → Bool
  pub output : NapalmState → DriverCall → String
  pub method_effect : String → NapalmState → NapalmState
  pub failure_effect : DriverCall → NapalmState → NapalmState

abbrev pub commit_candidate : NapalmState → NapalmState
commit_candidate s = elim s.candidate [
  | none ↦ s
  | some text ↦ record s { candidate = none; committed = s.committed ++ text ∷ [] }
]

abbrev pub reported : String → String → String → ℕ → CommandResult
reported command out err status = record {
  command = command;
  stdout = out;
  stderr = err;
  exit_status = status;
  is_running = none;
  parsed = none;
}

-- `" ".join(commands)`
pub join_words : List String → String
join_words [] = ""
join_words (w ∷ []) = w
join_words (w ∷ w' ∷ ws) = text_append w (text_append " " (join_words (w' ∷ ws)))

module _ (N : NetworkDriver) where
  pub effect_of : DriverCall → NapalmState → NapalmState
  effect_of open_session s = s
  effect_of compare_config s = s
  effect_of discard_config s = record s { candidate = none }
  effect_of commit_config s = commit_candidate s
  effect_of (load_merge_candidate text) s = record s { candidate = some text }
  effect_of (cli cmd) s = s
  effect_of (method name) s = N.method_effect name s

  -- What a call returns, or the text of its exception, and the device after it.
  pub call : DriverCall → NapalmState → Try String × NapalmState
  unfolding effect_of
  call c s =
      let s' = record s { calls = s.calls + 1 } in
      elim (N.raises s c) [
        | none ↦ (returned (N.output s c), effect_of c s')
        | some message ↦ (raised message, N.failure_effect c s')
      ]

  -- A command that is the name of a method is called, any other goes to the CLI.
  abbrev pub call_of : String → DriverCall
  call_of cmd = if N.has_method cmd then method cmd else cli cmd

  pub command_result : String → Try String → CommandResult
  command_result cmd (returned out) = reported cmd out "" 0
  command_result cmd (raised message) = reported cmd "" message 1

  pub send_each : List String → NapalmState → List CommandResult × NapalmState
  unfolding call command_result
  send_each [] s = ([], s)
  send_each (cmd ∷ cmds) s =
      let x = call (call_of cmd) s in
      let rest = send_each cmds x.1 in (command_result cmd x.0 ∷ rest.0, rest.1)

  pub after_open : List String → Try String × NapalmState → List CommandResult × NapalmState
  unfolding send_each join_words
  after_open cmds (returned out, s) = send_each cmds s
  after_open cmds (raised message, s) =
      (reported (join_words cmds) "" (text_append "Failed to open session: " message) 1 ∷ [], s)

  pub send : List String → NapalmState → List CommandResult × NapalmState
  unfolding after_open call
  send [] s = ([], s)
  send (cmd ∷ cmds) s = after_open (cmd ∷ cmds) (call open_session s)

  -- The end of a configuration, whose difference is already known.
  pub applied : String → String → Try String × NapalmState → CommandResult × NapalmState
  applied text diff (returned out, s) = (reported text diff "" 0, s)
  applied text diff (raised message, s) = (reported text diff message 1, s)

  pub apply_or_discard : Bool → String → Try String × NapalmState → CommandResult × NapalmState
  unfolding applied call
  apply_or_discard dry_run text (raised message, s) = (reported text "" message 1, s)
  apply_or_discard dry_run text (returned diff, s) =
      if dry_run
      then applied text diff (call discard_config s)
      else applied text diff (call commit_config s)

  pub after_load : Bool → String → Try String × NapalmState → CommandResult × NapalmState
  unfolding apply_or_discard call
  after_load dry_run text (raised message, s) = (reported text "" message 1, s)
  after_load dry_run text (returned out, s) = apply_or_discard dry_run text (call compare_config s)

  pub load : Bool → String → Try String × NapalmState → CommandResult × NapalmState
  unfolding after_load call
  load dry_run text (raised message, s) = (reported text "" message 1, s)
  load dry_run text (returned out, s) = after_load dry_run text (call (load_merge_candidate text) s)

  unfoldable pub configure : Bool → List String → NapalmState → List CommandResult × NapalmState
  unfolding load call
  configure dry_run [] s = ([], s)
  configure dry_run (line ∷ cfg) s =
      let x = load dry_run (join_lines (line ∷ cfg)) (call open_session s) in (x.0 ∷ [], x.1)

-- `NETMIKO_DEVICE_TYPE_MAP.get(device_type, device_type)`
abbrev pub device_types : List (String × String)
device_types =
    ("arista_eos", "eos")
    ∷ ("cisco_ios", "ios")
    ∷ ("cisco_xr", "iosxr")
    ∷ ("juniper", "junos")
    ∷ ("nxos", "nxos")
    ∷ ("cisco_nxos_ssh", "nxos_ssh")
    ∷ []

abbrev pub type_in : List (String × String) → String → String
type_in [] t = t
type_in ((netmiko, napalm) ∷ ts) t = if str_eq netmiko t then napalm else type_in ts t

pub convert_device_type : Option String → Result String
convert_device_type none = raise value_error
convert_device_type (some t) = ok (type_in device_types t)
