-- ===== src/Audit/Secrecy.antt =====
-- From a finished job to MongoDB: `rpc_audit_callback` queues the audit that `process_audit_log`
-- writes.
use linux_net_x.Base.{ℕ, String, ◌≡◌, refl, ap, inl, inr, Bool, true, Bool-cases, some, [], map}
use linux_net_x.Audit.Masking.{Json}
use linux_net_x.Audit.Masking.Laws.{Alike, hides}
use linux_net_x.Audit.Callback.{
  AuditMode, full, metadata, no_audit, AuditedJob, CallbackArgs, serialize, get_job_audit_mode,
  enqueue_audit, rpc_audit_callback,
}
use linux_net_x.Audit.Archiver.{
  Collection, or_same, AuditDocument, document, persist, archive, process_audit_log, write_to_mongo,
}

module _ (lower : String → String) (C : Collection AuditDocument) (cap now : ℕ)
    (mongodb_enabled : Bool) where
  -- The collection after the audit of a job that Redis still has.
  abbrev pub audited : AuditedJob → CallbackArgs → C.Rows → C.Rows
  audited job args rows =
      archive lower C cap (λ id. some job)
        (map (λ t. (now, t)) (rpc_audit_callback mongodb_enabled job args [])) rows

  module _ (job : AuditedJob) (req req' : Json) (h : Alike lower req req')
      (args args' : CallbackArgs) (k : Alike lower (serialize args) (serialize args')) where
    same_document :
        (mode : AuditMode)
        → document lower now mode (record job { request = some req }) (serialize args)
          ≡ document lower now mode (record job { request = some req' }) (serialize args')
    unfolding document
    same_document full = cc (hides lower h, hides lower k)
    same_document metadata = cc (hides lower h)
    same_document no_audit = cc (hides lower h)

    queued :
        (mode : AuditMode) (rows : C.Rows)
        → archive lower C cap
            (λ id. some (record job { request = some req }))
            (map (λ t. (now, t)) (enqueue_audit mode (record job { request = some req }) args []))
            rows
          ≡ archive lower C cap
              (λ id. some (record job { request = some req' }))
              (map
                (λ t. (now, t))
                (enqueue_audit mode (record job { request = some req' }) args' []))
              rows
    unfolding archive process_audit_log persist enqueue_audit
    queued no_audit rows = refl
    queued full rows =
        ap (λ d. or_same rows (write_to_mongo C true cap d rows)) (same_document full)
    queued metadata rows =
        ap (λ d. or_same rows (write_to_mongo C true cap d rows)) (same_document metadata)

    -- Two runs of a job whose requests and results differ only in values under sensitive keys leave
    -- the same collection, in every audit mode, whatever the server answers.
    pub audit-Alike :
        (rows : C.Rows)
        → audited (record job { request = some req }) args rows
          ≡ audited (record job { request = some req' }) args' rows
    unfolding rpc_audit_callback get_job_audit_mode archive
    audit-Alike rows = elim (Bool-cases mongodb_enabled) [
      | inl e ↦ rw e (queued (get_job_audit_mode job) rows)
      | inr e ↦ rw e refl
    ]
