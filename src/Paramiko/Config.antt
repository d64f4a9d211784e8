-- ===== src/Paramiko/Config.antt =====
-- `ParamikoDriver.config` (linux_net/plugins/drivers/paramiko/__init__.py), for lines that run
-- without sudo and without an environment, so that each is a command as it is. The device is an
-- argument: `exec k line` is what it answers when the line is run as the k-th one.
pub mod Stops
use linux_net_x.Base.{
  ℕ, ◌+◌, String, Bool, true, false, Option, none, some, List, [], ◌∷◌, ◌==◌, str_eq, if◌then◌else◌,
}
use linux_net_x.Rpc.Execute.{CommandResult, join_lines}

-- The output, the error output and the exit status of a line, or the text of an exception.
pub data Answer : Type 0 where
  exited : String → String → ℕ → Answer
  broke : String → Answer

-- `self.args`, by its class, with `stop_on_error` where it has one.
pub data Args : Type 0 where
  no_args command_args : Args
  config_args : (stop_on_error : Bool) → Args

-- `self.args and getattr(self.args, "stop_on_error", True)`
abbrev pub stops : Args → Bool
stops no_args = false
stops command_args = true
stops (config_args stop_on_error) = stop_on_error

-- The lists and the status that the loop builds, with the lines that have been run.
pub record LoopEnd : Type 0 where
  pub executed : List String
  pub full_stdout : List String
  pub full_stderr : List String
  pub exit_status : ℕ
  pub exception : Option String

unfoldable pub with_line : String → String → String → LoopEnd → LoopEnd
with_line line out err e = record {
  executed = line ∷ e.executed;
  full_stdout = out ∷ e.full_stdout;
  full_stderr = if str_eq err "" then e.full_stderr else err ∷ e.full_stderr;
  exit_status = e.exit_status;
  exception = e.exception;
}

abbrev pub ended : Option String → ℕ → LoopEnd
ended exception status = record {
  executed = [];
  full_stdout = [];
  full_stderr = [];
  exit_status = status;
  exception = exception;
}

unfoldable pub broken_line : String → String → ℕ → LoopEnd
broken_line line message status = record (ended (some message) status) { executed = line ∷ [] }

-- The loop over the lines; `status` is `overall_exit_status`.
unfoldable pub run_lines : Bool → (ℕ → String → Answer) → ℕ → ℕ → List String → LoopEnd
unfolding with_line broken_line
run_lines stop exec k status [] = ended none status
run_lines stop exec k status (line ∷ config) = elim (exec k line) [
  | broke message ↦ broken_line line message status
  | exited out err code ↦
      let passed = run_lines stop exec (k + 1) status config in
      let failed = run_lines stop exec (k + 1) code config in
      with_line line out err
        (if code == 0 then passed else if stop then ended none code else failed)
]

pub result_of : List String → LoopEnd → CommandResult
result_of config e = elim e.exception [
  | none ↦ record {
    command = join_lines config;
    stdout = join_lines e.full_stdout;
    stderr = join_lines e.full_stderr;
    exit_status = e.exit_status;
    is_running = none;
    parsed = none;
  }
  | some message ↦ record {
    command = join_lines config;
    stdout = "";
    stderr = message;
    exit_status = 1;
    is_running = none;
    parsed = none;
  }
]

-- `config`: the result, and the lines that have been run.
unfoldable pub config :
    Args → (ℕ → String → Answer) → List String → List CommandResult × List String
unfolding run_lines result_of
config a exec [] = ([], [])
config a exec (line ∷ lines) =
    let e = run_lines (stops a) exec 0 0 (line ∷ lines) in
    (result_of (line ∷ lines) e ∷ [], e.executed)
