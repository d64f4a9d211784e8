-- ===== src/Examples/Committing.antt =====
-- A napalm session whose commit raises.
use linux_net_x.Base.{String, ◌≡◌, refl, false, Option, none, some, List, [], ◌∷◌}
use linux_net_x.Rpc.Execute.{CommandResult, join_lines}
use linux_net_x.Napalm.{NetworkDriver, NapalmState, DriverCall, commit_config, configure}
use linux_net_x.Napalm.Outcomes.{Commits, configure-Commits}

abbrev broken_commit : DriverCall → Option String
broken_commit commit_config = some "commit failed"
broken_commit _ = none

abbrev device : NetworkDriver
device = record {
  raises = λ s c. broken_commit c;
  has_method = λ cmd. false;
  output = λ s c. "";
  method_effect = λ name s. s;
  failure_effect = λ c s. s;
}

abbrev empty : NapalmState
empty = record { calls = 0; candidate = none; committed = [] }

abbrev lines : List String
lines = "vlan 2" ∷ []

configure-Commits_example :
    (r : CommandResult) × ((configure device false ("vlan 1" ∷ lines) empty).0 ≡ r ∷ [])
    × Commits device false
        (join_lines ("vlan 1" ∷ lines))
        empty
        r
        (configure device false ("vlan 1" ∷ lines) empty).1
configure-Commits_example = configure-Commits device (λ c s ne. refl) false "vlan 1" lines empty

-- On a device that a failed commit leaves as it is, the candidate stays loaded.
candidate_stays :
    (configure device false ("vlan 1" ∷ lines) empty).1.candidate
    ≡ some (join_lines ("vlan 1" ∷ lines))
unfolding configure
candidate_stays = refl
