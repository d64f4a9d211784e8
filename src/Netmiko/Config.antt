-- ===== src/Netmiko/Config.antt =====
-- `NetmikoDriver.config` (linux_net/plugins/drivers/netmiko/__init__.py), without the redirection to
-- a file transfer. Netmiko's session and Python's text functions are parameters.
pub mod Verdicts
pub mod Lines
pub mod Saving
pub mod Outcome
use linux_net_x.Base.{
  ℕ, ◌+◌, String, Bool, true, false, not, ◌&&◌, ◌||◌, Option, none, some, List, [], ◌∷◌, ◌++◌, map,
  keep, any_of, ◌==◌, str_eq, text_append, if◌then◌else◌,
}
use linux_net_x.Rpc.Execute.{CommandResult, join_lines, Try, returned, raised}

-- The calls of a session.
pub data Call : Type 0 where
  set_base_prompt enable read_until_pattern commit save_config : Call
  exit_config_mode exit_enable_mode : Call
  config_mode : Option String → Call
  write_channel : String → Call

-- What the calls have done to the device. `calls` counts them all.
pub record DeviceState : Type 0 where
  pub calls : ℕ
  pub is_enabled : Bool
  pub in_config : Bool
  pub written : List String
  pub commits : ℕ
  pub saves : ℕ

-- A session: the calls that raise, with the text of the exception, what `read_until_pattern` returns
-- after a line, and what the other calls return. A session without `commit` has `none` there.
pub record Session : Type 0 where
  pub raises : DeviceState → Call → Option String
  pub output : DeviceState → String
  pub commit_output : DeviceState → Option String
  pub save_output : DeviceState → String

-- Python's `str.strip`, `str.splitlines`, the match of the prompt, and `re.search`.
pub record TextOps : Type 0 where
  pub strip : String → String
  pub splitlines : String → List String
  pub is_prompt : String → Bool
  pub search : String → String → Bool

pub record Options : Type 0 where
  pub enabled : Bool
  pub save : Bool
  pub config_mode_command : Option String
  pub error_pattern : Option String

abbrev error_patterns : List String
error_patterns =
    "% (Unrecognized command|Wrong parameter|Incomplete command|Invalid input|Ambiguous command)"
    ∷ "\\^" ∷ "Invalid input detected" ∷ "Error:" ∷ []

pub check_patterns : Options → List String
check_patterns o = elim o.error_pattern [ none ↦ error_patterns | some p ↦ p ∷ [] ]

effect : Call → DeviceState → DeviceState
effect set_base_prompt s = s
effect read_until_pattern s = s
effect enable s = record s { is_enabled = true }
effect commit s = record s { commits = s.commits + 1 }
effect save_config s = record s { saves = s.saves + 1 }
effect exit_config_mode s = record s { in_config = false }
effect exit_enable_mode s = record s { is_enabled = false }
effect (config_mode command) s = record s { in_config = true }
effect (write_channel line) s = record s { written = s.written ++ line ∷ [] }

last_line : List String → String
last_line [] = "Error detected"
last_line (l ∷ []) = l
last_line (l ∷ m ∷ ls) = last_line (m ∷ ls)

abbrev result : String → String → String → ℕ → CommandResult
result command out err status = record {
  command = command;
  stdout = out;
  stderr = err;
  exit_status = status;
  is_running = none;
  parsed = none;
}

abbrev passed : CommandResult → Bool
passed r = r.exit_status == 0

pub all_passed : List CommandResult → Bool
all_passed rs = not (any_of (λ r. not (passed r)) rs)

-- What a commit or a save prints is put behind the output of the last result.
pub append_output : String → List CommandResult → List CommandResult
append_output text [] = []
append_output text (r ∷ []) =
    (if str_eq text ""
      then r
      else record r { stdout = text_append r.stdout (text_append "\n" text) })
    ∷ []
append_output text (r ∷ r' ∷ rs) = r ∷ append_output text (r' ∷ rs)

-- The results, or an exception, and the device.
abbrev pub Body : Type 0
Body = Try (List CommandResult) × DeviceState

module _ (T : TextOps) (D : Session) (o : Options) where
  -- Empty lines, the echo of the command and prompts are left out.
  pub cleaned : String → String → String
  cleaned cmd raw = join_lines (
      keep (λ l. not (str_eq l "") && not (str_eq l (T.strip cmd)) && not (T.is_prompt l))
        (map T.strip (T.splitlines raw)))

  error_of : String → String
  unfolding last_line
  error_of out =
      text_append "Device reported configuration error: " (
        if str_eq (T.strip out) ""
        then "Error detected"
        else last_line (T.splitlines (T.strip out)))

  line_result : String → String → CommandResult
  unfolding error_of check_patterns
  line_result cmd out =
      if any_of (λ p. T.search p out) (check_patterns o)
      then result cmd out (error_of out) 1
      else result cmd out "" 0

  -- A call: the text of its exception, if it raises, and the device after it.
  pub perform : Call → DeviceState → Option String × DeviceState
  unfolding effect
  perform c s =
      let s' = record s { calls = s.calls + 1 } in
      elim (D.raises s c) [ none ↦ (none, effect c s') | some message ↦ (some message, s') ]

  -- The result of a line, and why the lines after it are skipped if it has failed.
  answered : String → Option String × DeviceState → (CommandResult × String) × DeviceState
  unfolding line_result cleaned
  answered cmd (none, s) = ((line_result cmd (cleaned cmd (D.output s)), "previous error"), s)
  answered cmd (some message, s) = ((result cmd "" message 1, "exception"), s)

  after_write : String → Option String × DeviceState → (CommandResult × String) × DeviceState
  unfolding answered perform
  after_write cmd (none, s) = answered cmd (perform read_until_pattern s)
  after_write cmd (some message, s) = ((result cmd "" message 1, "exception"), s)

  attempt : String → DeviceState → (CommandResult × String) × DeviceState
  unfolding after_write perform
  attempt cmd s = after_write cmd (perform (write_channel cmd) s)

  skipped : String → String → String → CommandResult
  skipped reason cmd later =
      result later ""
        (text_append "Skipped due to "
          (text_append reason (text_append " in execution of '" (text_append cmd "'"))))
        1

  pub run_lines : List String → DeviceState → List CommandResult × DeviceState
  unfolding attempt skipped
  run_lines [] s = ([], s)
  run_lines (cmd ∷ cfg) s =
      let r = attempt cmd s in
      let rest = run_lines cfg r.1 in
      if passed r.0.0 then (r.0.0 ∷ rest.0, rest.1) else (r.0.0 ∷ map (skipped r.0.1 cmd) cfg, r.1)

  pub and_then : Option String × DeviceState → (DeviceState → Body) → Body
  and_then (none, s) k = k s
  and_then (some message, s) k = (raised message, s)

  pub when_enabled : Call → DeviceState → (DeviceState → Body) → Body
  unfolding and_then perform
  when_enabled c s k = if o.enabled then and_then (perform c s) k else k s

  pub leave : List CommandResult → DeviceState → Body
  unfolding and_then perform when_enabled
  leave rs s =
      and_then (perform exit_config_mode s)
        (λ s'. when_enabled exit_enable_mode s' (λ s''. (returned rs, s'')))

  pub save : List CommandResult → DeviceState → Body
  unfolding and_then perform leave append_output
  save rs s = and_then (perform set_base_prompt s) (λ s'.
      and_then (perform save_config s') (λ s''. leave (append_output (D.save_output s') rs) s''))

  pub finish : List CommandResult → DeviceState → Body
  unfolding save leave all_passed
  finish rs s = if o.save && all_passed rs then save rs s else leave rs s

  -- The commit comes before the results are looked at.
  pub after_lines : List CommandResult → DeviceState → Body
  unfolding finish and_then perform append_output
  after_lines rs s = elim (D.commit_output s) [
    | none ↦ finish rs s
    | some text ↦ and_then (perform commit s) (λ s'. finish (append_output text rs) s')
  ]

  pub body : List String → DeviceState → Body
  unfolding and_then perform when_enabled run_lines after_lines
  body cfg s = and_then (perform set_base_prompt s) (λ s1. when_enabled enable s1 (λ s2.
      and_then (perform (config_mode o.config_mode_command) s2)
        (λ s3. after_lines (run_lines cfg s3).0 (run_lines cfg s3).1)))

  answer : List String → Try (List CommandResult) → List CommandResult
  answer cfg (returned rs) = rs
  answer cfg (raised message) = result (join_lines cfg) "" message 1 ∷ []

  unfoldable pub config : List String → DeviceState → List CommandResult × DeviceState
  unfolding body answer
  config cfg s = let x = body cfg s in (answer cfg x.0, x.1)
