-- ===== src/Rpc/Execute/Answers.antt =====
-- What a run of a request answers.
use linux_net_x.Base.{ℕ, String, ◌≡◌, refl, Bool, true, false, Option, none, some, List, [], ◌∷◌}
use linux_net_x.Nodes.{Result, ok}
use linux_net_x.Redis.{Hash}
use linux_net_x.Detached.{TaskMeta, Registry, get}
use linux_net_x.Detached.Manage.{or_else}
use linux_net_x.Rpc.Execute.{
  CommandResult, join_lines, launched, task_meta, act_ends, answer_of, try_block, finally, Try,
  returned, raised, Act, connected, disconnected, sent, Call, Templates, dict, lines, render_call,
  render_payload, render_script, render_paths, render_option, context_of, template_of, payload_of,
  normalised, normalise, with_payload, Plugin, config_given, prepare, chosen, run, parse_results,
  after_connect, with_driver, prepared, execute,
}
use linux_net_x.Rpc.Execute.Runs.{LaunchNames}

module _ (Context : Type 0) (T : Templates Context) (HT : Hash TaskMeta) (mongodb_enabled : Bool)
    (now : ℕ) (d : Plugin Context) (task_id : String) where
  abbrev Run : Type 0
  Run = Result (List CommandResult) × List Act × Registry HT

  abbrev Names : Act → Type 0
  Names = LaunchNames Context T HT mongodb_enabled now d task_id

  -- The text of the exception that ends a run on the device.
  abbrev pub failure_of : Option String → Try (List CommandResult) → Option String
  failure_of (some message) o = some message
  failure_of none (raised message) = some message
  failure_of none (returned results) = none

  -- What a run answers and registers, for a request that has been prepared and a driver that has been
  -- made. The device fails: one result tells so, and nothing is registered. Or a task is launched:
  -- its results are the answer, and it is registered with them. Or another call returns: its results
  -- are the answer, parsed if that was asked for, and nothing is registered.
  pub data DeviceRun (c : Call Context) (payload : List String) (act : Act) (r : Registry HT)
      (x : Run) : Type 0 where
    device_failed :
        (message : String) (res : CommandResult)
        → failure_of d.connect (run Context T d act) ≡ some message
        → x.0 ≡ ok (res ∷ [])
        → res.command ≡ join_lines payload
        → res.exit_status ≡ 1
        → res.stderr ≡ message
        → res.stdout ≡ ""
        → x.2 ≡ r
        → DeviceRun c payload act r x
    task_launched :
        (command : String) (results : List CommandResult)
        → act ≡ launched command task_id
        → d.connect ≡ none
        → d.launch command task_id ≡ returned results
        → x.0 ≡ ok results
        → get HT task_id x.2 ≡ some (task_meta Context T now c results)
        → DeviceRun c payload act r x
    call_returned :
        (results : List CommandResult)
        → d.connect ≡ none
        → run Context T d act ≡ returned results
        → x.0 ≡ parse_results Context T c.parsing results
        → x.2 ≡ r
        → DeviceRun c payload act r x

  abbrev ran : Call Context → List String → Act → Try (List CommandResult) → Registry HT → Run
  ran c payload act o r =
      let x = act_ends Context T HT mongodb_enabled now c act o r in
      (
        answer_of Context T HT mongodb_enabled c payload x.0,
        connected ∷ act ∷ disconnected ∷ [],
        x.1,
      )

  -- A request for a command that is a dict, with a template.
  abbrev pub templated : Context → String → Option Context → Bool → Call Context
  templated vars template context parsing = record {
    known_driver = true;
    config = none;
    command = some (dict vars);
    file_transfer = none;
    rendering = some (record { template = some template; context = context });
    script = none;
    parsing = parsing;
    detach = false;
    push_interval = none;
    webhook = false;
    host = "";
  }

  prepare-templated :
      (vars : Context) (template s : String) (context : Option Context) (parsing : Bool)
      → T.render template (T.update (or_else T.empty context) vars) ≡ ok s
      → prepare Context T (templated vars template context parsing)
        ≡ ok (
          record (templated vars template context parsing) {
            command = some (lines (s ∷ []));
            rendering = none;
          },
          s ∷ [],
        )
  unfolding prepare render_call render_payload render_script render_paths render_option context_of
      template_of payload_of normalised normalise with_payload
  prepare-templated vars template s context parsing e = rw e refl

  -- The command of a request with a dict and a template reaches the device as the rendered template,
  -- in which the dict takes precedence over the context, and nothing else does. The answer is the
  -- driver's, parsed if that was asked for.
  pub execute-templated :
      (vars : Context) (template s : String) (context : Option Context) (parsing : Bool)
      (results : List CommandResult) (r : Registry HT)
      → T.render template (T.update (or_else T.empty context) vars) ≡ ok s
      → ((c : Call Context) → d.init c ≡ none)
      → d.connect ≡ none
      → d.send (s ∷ []) ≡ returned results
      → execute Context T HT mongodb_enabled now d task_id
          (templated vars template context parsing)
          r
        ≡ (
          parse_results Context T parsing results,
          connected ∷ sent (s ∷ []) ∷ disconnected ∷ [],
          r,
        )
  unfolding execute prepared with_driver after_connect try_block finally act_ends answer_of chosen
      run config_given
  execute-templated vars template s context parsing results r e init up given =
      rw (prepare-templated vars template s context parsing e, init)
        (rw (up, execute) (rw given refl))
