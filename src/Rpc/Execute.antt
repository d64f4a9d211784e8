-- ===== src/Rpc/Execute.antt =====
-- `execute` (linux_net/services/rpc.py). Renderers, parsers and drivers are plugins, and arguments
-- here; an exception of a driver is its text. The calls of a driver that succeed, and those that
-- raise in the middle, are kept in a trace. A disconnection that raises is ignored.
pub mod Runs
pub mod Answers
use linux_net_x.Base.{
  ℕ, String, Bool, true, false, ◌&&◌, ◌||◌, not, Option, none, some, List, [], ◌∷◌, ◌++◌, str_eq,
  text_append, if◌then◌else◌,
}
use linux_net_x.Nodes.{Error, Result, ok, raise, value_error, assertion, not_implemented, ◌>>=◌}
use linux_net_x.Redis.{Hash}
use linux_net_x.Request.{is_some}
use linux_net_x.Detached.{Status, running, completed, TaskMeta, Registry, register}
use linux_net_x.Detached.Manage.{or_else, status_of}

-- `"\n".join(lines)`
abbrev pub join_lines : List String → String
join_lines [] = ""
join_lines (l ∷ []) = l
join_lines (l ∷ m ∷ rest) = text_append l (text_append "\n" (join_lines (m ∷ rest)))

-- The entries of a `DriverExecutionResult` that this code writes or reads.
pub record CommandResult : Type 0 where
  pub command : String
  pub stdout : String
  pub stderr : String
  pub exit_status : ℕ
  pub is_running : Option Bool
  pub parsed : Option String

-- A call that returns or raises, with the text of the exception.
pub data Try (A : Type 0) : Type 0 where
  returned : A → Try A
  raised : String → Try A

-- A call of the driver on an open session.
pub data Act : Type 0 where
  connected disconnected : Act
  launched : String → String → Act
  sent configured : List String → Act

-- How the `try` block of a run ends: with the return of a launch, with results, or with an exception.
pub data Ending : Type 0 where
  returns goes_on : List CommandResult → Ending
  excepts : String → Ending

-- The local variables at the end of the block, what it has done on the device, and the registry.
pub record Block (HT : Hash TaskMeta) : Type 0 where
  pub session : Bool
  pub trace : List Act
  pub ending : Ending
  pub registry : Registry HT

module _ (Context : Type 0) where
  pub data Payload : Type 0 where
    dict : Context → Payload
    lines : List String → Payload
    text : String → Payload

  pub record Rendering : Type 0 where
    pub template : Option String
    pub context : Option Context

  pub record FilePaths : Type 0 where
    pub remote_path : String
    pub local_path : Option String

  -- What `execute` reads of an `ExecutionRequest`. `script` is the `script_content` of the driver's
  -- arguments, `none` also if it is empty.
  pub record Call : Type 0 where
    pub known_driver : Bool
    pub config : Option Payload
    pub command : Option Payload
    pub file_transfer : Option FilePaths
    pub rendering : Option Rendering
    pub script : Option String
    pub parsing : Bool
    pub detach : Bool
    pub push_interval : Option ℕ
    pub webhook : Bool
    pub host : String

  -- A renderer and a parser. `filled` is the truth value of a dict.
  pub record Templates : Type 0 where
    pub empty : Context
    pub filled : Context → Bool
    pub update : Context → Context → Context
    pub render : String → Context → Result String
    pub parse : String → Result String

  -- The driver: an error when it is made, the text of an error when it connects, and its operations.
  pub record Plugin : Type 0 where
    pub init : Call → Option Error
    pub connect : Option String
    pub launch : String → String → Try (List CommandResult)
    pub send : List String → Try (List CommandResult)
    pub configure : List String → Try (List CommandResult)

  abbrev pub has_command : Call → Bool
  has_command c = is_some c.command || is_some c.file_transfer

  payload_of : Call → Option Payload
  payload_of c = elim c.config [ some p ↦ some p | none ↦ c.command ]

  -- The payload is written back to the request.
  with_payload : Bool → Option Payload → Call → Call
  with_payload true p c = record c { command = p }
  with_payload false p c = record c { config = p }

  -- `isinstance(payload, list)` or a string, as a list; a dict has not been rendered.
  normalise : Option Payload → Result (List String)
  normalise none = ok []
  normalise (some (text s)) = ok (s ∷ [])
  normalise (some (lines l)) = ok l
  normalise (some (dict d)) = raise assertion

  module _ (T : Templates) where
    context_of : Rendering → Option Payload → Context
    context_of r (some (dict d)) = T.update (or_else T.empty r.context) d
    context_of r _ = or_else T.empty r.context

    -- A payload that is text is the template if the request has no other.
    template_of : Option String → Option Payload → Option String
    template_of template (some (dict d)) = template
    template_of (some t) p = some t
    template_of none (some (lines l)) = some (join_lines l)
    template_of none (some (text s)) = some s
    template_of none none = none

    -- The request and the payload, once the payload is rendered.
    render_payload :
        Bool → Context → Option String → Option Payload → Call → Result (Call × Option Payload)
    unfolding with_payload
    render_payload optional ctx none p c = if optional then ok (c, p) else raise value_error
    render_payload optional ctx (some t) p c =
        T.render t ctx >>= λ s. ok (with_payload (has_command c) (some (text s)) c, some (text s))

    render_option : Context → Option String → Result (Option String)
    render_option ctx none = ok none
    render_option ctx (some t) = T.render t ctx >>= λ s. ok (some s)

    render_script : Context → Call → Result Call
    unfolding render_option
    render_script ctx c = render_option ctx c.script >>= λ s. ok (record c { script = s })

    render_paths : Context → Option FilePaths → Call → Result Call
    unfolding render_option
    render_paths ctx none c = ok c
    render_paths ctx (some f) c = T.render f.remote_path ctx >>= λ remote.
        render_option ctx f.local_path >>= λ local.
        ok (record c { file_transfer = some (record { remote_path = remote; local_path = local }) })

    -- The rendering of the payload, the script and the paths, in this order.
    render_call : Option Rendering → Call → Result (Call × Option Payload)
    unfolding context_of template_of render_payload render_script render_paths payload_of
    render_call none c = ok (c, payload_of c)
    render_call (some r) c =
        let p = payload_of c in
        let ctx = context_of r p in
        let optional = is_some c.file_transfer || is_some c.script in
        render_payload optional ctx (template_of r.template p) p c >>= λ x.
        render_script ctx x.0 >>= λ c2.
        render_paths ctx c2.file_transfer c2 >>= λ c3. ok (record c3 { rendering = none }, x.1)

    normalised : Call × Option Payload → Result (Call × List String)
    unfolding normalise with_payload
    normalised (c, p) = normalise p >>= λ l. ok (with_payload (has_command c) (some (lines l)) c, l)

    -- All that comes before the driver: the request as the driver gets it, and its payload.
    unfoldable pub prepare : Call → Result (Call × List String)
    unfolding render_call normalised
    prepare c =
        if c.known_driver then render_call c.rendering c >>= normalised else raise not_implemented

    -- The truth value of `req.config`.
    config_given : Option Payload → Bool
    config_given none = false
    config_given (some (text s)) = not (str_eq s "")
    config_given (some (lines [])) = false
    config_given (some (lines (l ∷ rest))) = true
    config_given (some (dict d)) = T.filled d

    first_or_empty : List String → String
    first_or_empty [] = ""
    first_or_empty (l ∷ rest) = l

    -- The one operation of a run: a detached launch, a sending of commands or files, or a
    -- configuration.
    unfoldable pub chosen : Bool → Call → String → List String → Act
    unfolding config_given first_or_empty
    chosen sends c task_id payload =
        if c.detach && not (config_given c.config)
        then launched (first_or_empty payload) task_id
        else if sends
        then sent payload
        else configured payload

    unfoldable pub run : Plugin → Act → Try (List CommandResult)
    run d (launched command task_id) = d.launch command task_id
    run d (sent payload) = d.send payload
    run d (configured payload) = d.configure payload
    run d connected = returned []
    run d disconnected = returned []

    -- `is_running` of the entry `launch`.
    unfoldable pub launch_runs : List CommandResult → Bool
    launch_runs [] = true
    launch_runs (res ∷ results) =
        if str_eq res.command "launch" then or_else true res.is_running else launch_runs results

    unfoldable pub task_meta : ℕ → Call → List CommandResult → TaskMeta
    unfolding launch_runs
    task_meta now c results = record {
      status = status_of (launch_runs results);
      last_sync = some now;
      created_at = some now;
      push_interval = c.push_interval;
      webhook = c.webhook;
      last_offset = none;
      host = c.host;
    }

    -- The one result of a run whose driver has raised.
    unfoldable pub error_result : List String → String → CommandResult
    error_result payload message = record {
      command = join_lines payload;
      stdout = "";
      stderr = message;
      exit_status = 1;
      is_running = none;
      parsed = none;
    }

    parse_each : List CommandResult → Result (List CommandResult)
    parse_each [] = ok []
    parse_each (res ∷ results) = T.parse res.stdout >>= λ s.
        parse_each results >>= λ rest. ok (record res { parsed = some s } ∷ rest)

    pub parse_results : Bool → List CommandResult → Result (List CommandResult)
    unfolding parse_each
    parse_results parsing results = if parsing then parse_each results else ok results

    module _ (HT : Hash TaskMeta) (mongodb_enabled : Bool) where
      -- The operation in the `try` block. A launch is registered there, and its result returned.
      act_ends : ℕ → Call → Act → Try (List CommandResult) → Registry HT → Ending × Registry HT
      unfolding register task_meta
      act_ends now c act (raised message) r = (excepts message, r)
      act_ends now c (launched command task_id) (returned results) r =
          (returns results, register HT mongodb_enabled task_id (task_meta now c results) r)
      act_ends now c act (returned results) r = (goes_on results, r)

      -- The `try` block. `session` is still none where the connection has raised.
      try_block : ℕ → Plugin → Call → Act → Option String → Registry HT → Block HT
      unfolding act_ends run
      try_block now d c act (some message) r = record {
        session = false;
        trace = [];
        ending = excepts message;
        registry = r;
      }
      try_block now d c act none r =
          let x = act_ends now c act (run d act) r in
          record { session = true; trace = connected ∷ act ∷ []; ending = x.0; registry = x.1 }

      -- `finally`: the session is closed if there is one.
      finally : Block HT → List Act
      finally b = if b.session then b.trace ++ disconnected ∷ [] else b.trace

      -- The answer of the block, of its `except`, or of the parsing that follows it.
      answer_of : Call → List String → Ending → Result (List CommandResult)
      unfolding error_result parse_results
      answer_of c payload (returns results) = ok results
      answer_of c payload (excepts message) = ok (error_result payload message ∷ [])
      answer_of c payload (goes_on results) = parse_results c.parsing results

      after_connect :
          ℕ
          → Plugin
          → Call
          → List String
          → Act
          → Option String
          → Registry HT
          → Result (List CommandResult) × List Act × Registry HT
      unfolding try_block finally answer_of
      after_connect now d c payload act failure r =
          let b = try_block now d c act failure r in
          (answer_of c payload b.ending, finally b, b.registry)

      with_driver :
          ℕ
          → Plugin
          → String
          → Bool
          → Call × List String
          → Option Error
          → Registry HT
          → Result (List CommandResult) × List Act × Registry HT
      unfolding after_connect chosen
      with_driver now d task_id sends (c, payload) (some e) r = (raise e, [], r)
      with_driver now d task_id sends (c, payload) none r =
          after_connect now d c payload (chosen sends c task_id payload) d.connect r

      prepared :
          ℕ
          → Plugin
          → String
          → Bool
          → Result (Call × List String)
          → Registry HT
          → Result (List CommandResult) × List Act × Registry HT
      unfolding with_driver
      prepared now d task_id sends (raise e) r = (raise e, [], r)
      prepared now d task_id sends (ok x) r = with_driver now d task_id sends x (d.init x.0) r

      -- `execute`. `task_id` is that of the job's meta, or a new one.
      unfoldable pub execute :
          ℕ
          → Plugin
          → String
          → Call
          → Registry HT
          → Result (List CommandResult) × List Act × Registry HT
      unfolding prepared prepare
      execute now d task_id c r = prepared now d task_id (has_command c) (prepare c) r
