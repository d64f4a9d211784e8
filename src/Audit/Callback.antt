-- ===== src/Audit/Callback.antt =====
-- `rpc_audit_callback` (linux_net/services/audit.py): what a finished job puts on AuditLogQ.
use linux_net_x.Base.{
  ℕ, String, Bool, Option, none, some, List, [], ◌∷◌, ◌++◌, text_append, if◌then◌else◌,
}
use linux_net_x.Audit.Masking.{Json, null, text, list, Items, nil, item}

-- The values of `audit_mode`; `no_audit` is "none".
pub data AuditMode : Type 0 where
  full metadata no_audit : AuditMode

-- What the audit reads of an rq job. `request_mode` is there if the job has a request, and has the
-- request's attribute if it has one; `payload_mode` likewise for the payload in the job's meta.
pub record AuditedJob : Type 0 where
  pub id : String
  pub status : String
  pub enqueued_at : Option ℕ
  pub started_at : Option ℕ
  pub ended_at : Option ℕ
  pub request_mode : Option (Option AuditMode)
  pub payload_mode : Option (Option AuditMode)
  -- `req.model_dump(mode="json")`
  pub request : Option Json
  -- the device's name and the command, if the job has a meta
  pub meta : Option (Json × Json)

or_full : Option AuditMode → AuditMode
or_full none = full
or_full (some mode) = mode

unfoldable pub get_job_audit_mode : AuditedJob → AuditMode
unfolding or_full
get_job_audit_mode job = elim job.request_mode [
  | some mode ↦ or_full mode
  | none ↦ elim job.payload_mode [ some mode ↦ or_full mode | none ↦ full ]
]

-- An entry of a returned list: it has `model_dump`, or it is printed.
pub data Entry : Type 0 where
  dumps : Json → Entry
  prints : String → Entry

-- A job's return value: a list, an object with `model_dump`, or a plain value.
pub data Returned : Type 0 where
  entries : List Entry → Returned
  model : Json → Returned
  plain_value : Json → Returned

-- What rq passes on: the return value, or the type and the value of an exception.
pub data CallbackArgs : Type 0 where
  returned : Returned → CallbackArgs
  failed : String → String → CallbackArgs
  other_args : CallbackArgs

unfoldable pub serialize_entries : List Entry → Items
serialize_entries [] = nil
serialize_entries (dumps r ∷ rs) = item r (serialize_entries rs)
serialize_entries (prints s ∷ rs) = item (text s) (serialize_entries rs)

unfoldable pub serialize : CallbackArgs → Json
unfolding serialize_entries
serialize (returned (entries rs)) = list (serialize_entries rs)
serialize (returned (model r)) = r
serialize (returned (plain_value r)) = r
serialize (failed exc_type exc_value) = text (text_append exc_type (text_append ": " exc_value))
serialize other_args = null

-- A job of AuditLogQ: the arguments of `process_audit_log`.
pub record AuditTask : Type 0 where
  pub job_id : String
  pub result : Json
  pub audit_mode : AuditMode

unfoldable pub enqueue_audit :
    AuditMode → AuditedJob → CallbackArgs → List AuditTask → List AuditTask
unfolding serialize
enqueue_audit no_audit job args queue = queue
enqueue_audit mode job args queue =
    queue ++ record { job_id = job.id; result = serialize args; audit_mode = mode } ∷ []

unfoldable pub rpc_audit_callback :
    Bool → AuditedJob → CallbackArgs → List AuditTask → List AuditTask
unfolding enqueue_audit
rpc_audit_callback mongodb_enabled job args queue =
    if mongodb_enabled then enqueue_audit (get_job_audit_mode job) job args queue else queue
