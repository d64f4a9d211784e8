-- ===== src/Netmiko/Config/Outcome.antt =====
-- What a configuration answers, and what it leaves on the device.
use linux_net_x.Base.{String, ◌≡◌, ◌⊎◌, true, List, [], ◌∷◌, ◌++◌, map}
use linux_net_x.Rpc.Execute.{CommandResult, join_lines}
use linux_net_x.Netmiko.Config.{
  DeviceState, Session, TextOps, Options, all_passed, Body, answer, result,
}
use linux_net_x.Netmiko.Config.Verdicts.{Reports}
use linux_net_x.Netmiko.Config.Lines.{Writes}

-- What a configuration leaves, as an answer and a device. Either it has failed before its lines; or
-- the lines have been reported on and written as `Reports` says, from a device on to which nothing
-- had been written yet, the device is saved only if all of
-- them have passed, and the answer is one failure with status 1, or has the command and the exit
-- status of each line.
pub data Configured (T : TextOps) (D : Session) (o : Options) (cfg : List String) (s : DeviceState)
    (x : List CommandResult) (s' : DeviceState) : Type 0 where
  not_entered :
      (message : String)
      → x ≡ result (join_lines cfg) "" message 1 ∷ []
      → Writes s s' []
      → Configured T D o cfg s x s'
  entered :
      (s1 : DeviceState) (reported : List CommandResult) (written : List String)
      → Writes s s1 []
      → Reports T D o s1 cfg reported written
      → s'.written ≡ s.written ++ written
      → (s'.saves ≡ s.saves) ⊎ (all_passed reported ≡ true)
      → ((message : String) × (x ≡ result (join_lines cfg) "" message 1 ∷ []))
        ⊎ ((map (λ r. r.command) x ≡ cfg)
            × (map (λ r. r.exit_status) x ≡ map (λ r. r.exit_status) reported))
      → Configured T D o cfg s x s'

module _ (T : TextOps) (D : Session) (o : Options) (cfg : List String) (s : DeviceState) where
  abbrev Answered : Body → Type 0
  Answered b = Configured T D o cfg s (answer T D o cfg b.0) b.1
