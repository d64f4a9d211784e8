-- ===== src/Netmiko/Send.antt =====
-- `NetmikoDriver.send` (linux_net/plugins/drivers/netmiko/__init__.py). Netmiko's session and its
-- `file_transfer` are parameters; the arguments that are passed on to netmiko are left out.
pub mod Answers
use linux_net_x.Base.{
  ℕ, ◌+◌, String, Bool, true, false, Option, none, some, List, [], ◌∷◌, ◌++◌, if◌then◌else◌,
}
use linux_net_x.Rpc.Execute.{CommandResult, Try, returned, raised}
use linux_net_x.Napalm.{join_words, reported}

pub data SendCall : Type 0 where
  enter_enable leave_enable clear_buffer : SendCall
  send_command : String → SendCall

pub record SendState : Type 0 where
  pub calls : ℕ
  pub is_enabled : Bool
  pub sent : List String

pub record SendSession : Type 0 where
  pub raises : SendState → SendCall → Option String
  pub output : SendState → String → String
  pub transfer : SendState → List CommandResult

-- What the driver is made with.
pub record SendOptions : Type 0 where
  pub enabled : Bool
  pub file_transfer : Bool
  pub session_reused : Bool

abbrev pub Sent : Type 0
Sent = Try (List CommandResult) × SendState

pub effect_on : SendCall → SendState → SendState
effect_on enter_enable s = record s { is_enabled = true }
effect_on leave_enable s = record s { is_enabled = false }
effect_on clear_buffer s = s
effect_on (send_command cmd) s = record s { sent = s.sent ++ cmd ∷ [] }

module _ (N : SendSession) (o : SendOptions) where
  pub invoke : SendCall → SendState → Option String × SendState
  unfolding effect_on
  invoke c s =
      let s' = record s { calls = s.calls + 1 } in
      elim (N.raises s c) [ none ↦ (none, effect_on c s') | some message ↦ (some message, s') ]

  pub then_run : Option String × SendState → (SendState → Sent) → Sent
  then_run (none, s) k = k s
  then_run (some message, s) k = (raised message, s)

  -- The end of the loop.
  pub finished : Bool → List CommandResult → SendState → Sent
  unfolding then_run invoke
  finished true rs s = then_run (invoke leave_enable s) (λ s'. (returned rs, s'))
  finished false rs s = (returned rs, s)

  pub loop : List String → List CommandResult → SendState → Sent
  unfolding finished then_run invoke
  loop [] rs s = finished o.enabled rs s
  loop (cmd ∷ cmds) rs s =
      then_run (invoke (send_command cmd) s)
        (λ s'. loop cmds (rs ++ reported cmd (N.output s' cmd) "" 0 ∷ []) s')

  -- An exception of the clearing of the buffer is ignored.
  pub cleared_buffer : SendState → SendState
  unfolding invoke
  cleared_buffer s = if o.session_reused then (invoke clear_buffer s).1 else s

  -- A file transfer returns from the middle.
  pub after_enable : List String → SendState → Sent
  unfolding loop cleared_buffer
  after_enable cmds s =
      if o.file_transfer then (returned (N.transfer s), s) else loop cmds [] (cleared_buffer s)

  pub sent_commands : Bool → List String → SendState → Sent
  unfolding after_enable then_run invoke
  sent_commands true cmds s = then_run (invoke enter_enable s) (after_enable cmds)
  sent_commands false cmds s = after_enable cmds s

  pub answer_of : List String → Try (List CommandResult) → List CommandResult
  answer_of cmds (returned rs) = rs
  answer_of cmds (raised message) = reported (join_words cmds) "" message 1 ∷ []

  unfoldable pub send_to : List String → SendState → List CommandResult × SendState
  unfolding sent_commands answer_of
  send_to cmds s = let x = sent_commands o.enabled cmds s in (answer_of cmds x.0, x.1)
