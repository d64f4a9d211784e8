-- ===== src/Examples/Devices.antt =====
-- Transfers, connections and logs of a device.
use linux_net_x.Base.{
  ◌==◌, if◌then◌else◌, ℕ, String, ◌≡◌, refl, true, false, Option, none, some, List, [], ◌∷◌,
}
use linux_net_x.Paramiko.Transfer.{Options, done, upload_file, download_file}
use linux_net_x.Paramiko.Transfer.Loop.{Settled}
use linux_net_x.Paramiko.Transfer.Laws.{full_report, transfer-Settled, transfer_full, upload_again}
use linux_net_x.Paramiko.Session.{ConnArgs, Driver, close, connect}
use linux_net_x.Paramiko.Session.Safety.{
  IsSound, IsCleared, Serves, start, lose, Reach, here, next, Reach-Serves,
}
use linux_net_x.Paramiko.Config.{Answer, exited, config_args, config}
use linux_net_x.Rpc.Execute.{CommandResult, join_lines}
use linux_net_x.Paramiko.Config.Stops.{Outcome, config-Stopped}

data Letter : Type 0 where
  letter : Letter

-- A digest that tells the contents of one letter from all others.
abbrev digest : List Letter → String
digest [] = "none"
digest (x ∷ []) = "one"
digest (x ∷ y ∷ rest) = "many"

abbrev one : List Letter
one = letter ∷ []

digest_of_one : (other : List Letter) → digest one ≡ digest other → one ≡ other
digest_of_one [] e = cc
digest_of_one (letter ∷ []) e = refl
digest_of_one (x ∷ y ∷ rest) e = cc

abbrev resuming : Options
resuming = record { resume = true; hash_sync = true; chunk_size = 1; md5sum = true }

abbrev full : Options
full = record { resume = false; hash_sync = false; chunk_size = 1; md5sum = true }

abbrev up : ℕ → Option ℕ
up k = none

up_holds : (k : ℕ) → up k ≡ none
up_holds k = refl

-- The first write is cut off.
abbrev down : ℕ → Option ℕ
down k = some 0

transfer-Settled_example :
    Settled Letter digest one (upload_file Letter digest resuming down (some one) (some []))
    × Settled Letter digest one (download_file Letter digest resuming down (some one) (some []))
transfer-Settled_example =
    transfer-Settled Letter digest resuming 0 refl down one (some []) (one, refl) (digest_of_one [])

abbrev two : List Letter
two = letter ∷ letter ∷ []

transfer_full_example :
    (upload_file Letter digest full up (some one) (some two)
      ≡ (done (full_report Letter digest full 0 refl up up_holds 3 1), some one))
    × (download_file Letter digest full up (some one) (some two)
        ≡ (done (full_report Letter digest full 0 refl up up_holds 1 1), some one))
transfer_full_example = transfer_full Letter digest full 0 refl up up_holds one (some two) refl refl

upload_again_example :
    (upload_file Letter digest resuming up
      (some one)
      (upload_file Letter digest resuming down (some one) none).1).1
    ≡ some one
upload_again_example =
    upload_again Letter digest resuming 0 down up one none refl (one, refl) digest_of_one up_holds

abbrev args : ConnArgs
args = record { host = "h"; username = "alice"; keepalive = some 30 }

abbrev other_user : ConnArgs
other_user = record { host = "h"; username = "bob"; keepalive = none }

abbrev idle : Driver
idle = record {
  persisted_session = none;
  persisted_conn_args = none;
  monitored = none;
  opened = 0;
  active = λ k. false;
  opened_with = λ k. args;
}

idle-IsCleared : IsCleared idle
idle-IsCleared = record { no_session = refl; no_args = refl; no_monitor = refl }

abbrev used : Driver
used = close 0 (connect args idle).1

used-Reach : Reach idle used
used-Reach = next (next here (start args idle)) (lose 0 (connect args idle).1)

Reach-Serves_example :
    IsSound used
    × IsSound (connect other_user used).1
    × Serves other_user (connect other_user used).0 (connect other_user used).1
Reach-Serves_example = Reach-Serves idle used other_user idle-IsCleared used-Reach

abbrev logs : List (List Letter)
logs = one ∷ two ∷ []

-- The second line of a configuration fails.
abbrev second_fails : ℕ → String → Answer
second_fails k line = if k == 1 then exited "" "bad" 2 else exited "ok" "" 0

abbrev three_lines : List String
three_lines = "a" ∷ "b" ∷ "c" ∷ []

config-Stopped_example :
    (r : CommandResult) × ((config (config_args true) second_fails three_lines).0 ≡ r ∷ [])
    × (r.command ≡ join_lines three_lines)
    × Outcome second_fails three_lines r (config (config_args true) second_fails three_lines).1
config-Stopped_example = config-Stopped second_fails (config_args true) "a" ("b" ∷ "c" ∷ []) refl
