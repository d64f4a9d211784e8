-- ===== src/Examples/Configuring.antt =====
-- Two lines for a netmiko session, the first of which the device refuses.
use linux_net_x.Base.{String, ◌≡◌, refl, true, false, Option, none, some, List, [], ◌∷◌, str_eq}
use linux_net_x.Netmiko.Config.{DeviceState, Session, TextOps, Options, config}
use linux_net_x.Netmiko.Send.{SendCall, send_command, SendSession, SendOptions, SendState, send_to}

abbrev texts : TextOps
texts = record {
  strip = λ s. s;
  splitlines = λ s. s ∷ [];
  is_prompt = λ s. str_eq s "r1#";
  search = λ p s. str_eq s p;
}

-- The device refuses what it is sent.
abbrev session : Session
session = record {
  raises = λ s c. none;
  output = λ s. "Error:";
  commit_output = λ s. some "";
  save_output = λ s. "";
}

abbrev options : Options
options = record { enabled = true; save = true; config_mode_command = none; error_pattern = none }

abbrev idle : DeviceState
idle = record {
  calls = 0;
  is_enabled = false;
  in_config = false;
  written = [];
  commits = 0;
  saves = 0;
}

abbrev two_lines : List String
two_lines = "vlan 1" ∷ "vlan 2" ∷ []

-- The commit of a configuration whose first line has failed.
refused_is_committed : (config texts session options two_lines idle).1.commits ≡ 1
unfolding config
refused_is_committed = refl

abbrev refuses : SendCall → Option String
refuses (send_command cmd) = some "timed out"
refuses _ = none

abbrev slow : SendSession
slow = record { raises = λ s c. refuses c; output = λ s cmd. ""; transfer = λ s. [] }

abbrev privileged : SendOptions
privileged = record { enabled = true; file_transfer = false; session_reused = false }

abbrev fresh : SendState
fresh = record { calls = 0; is_enabled = false; sent = [] }

-- A command that raises leaves the session in enable mode.
mode_stays : (send_to slow privileged two_lines fresh).1.is_enabled ≡ true
unfolding send_to
mode_stays = refl
