-- ===== src/Audit/Archiver/Refinement.antt =====
-- The archiver against its specification: of the documents of its tasks the newest are kept.
use linux_net_x.Base.{
  ℕ, ◌<◌, String, ◌≡◌, refl, arith, inl, inr, Option, none, some, List, [], ◌∷◌, ◌++◌, Option-cases,
}
use mathlib.Core.List.{append_assoc, append-nil}
use linux_net_x.Audit.Callback.{AuditMode, full, metadata, no_audit, AuditedJob, AuditTask}
use linux_net_x.Audit.Archiver.{
  Collection, or_same, AuditDocument, document, persist, process_audit_log, archive,
}
use linux_net_x.Audit.Archiver.Ring.{IsNew, Answers, Keeps, by_age-write_to_mongo}

module _ (lower : String → String) (fetch : String → Option AuditedJob) where
  -- What a task leaves: one document, or none for a job that is gone or is not audited.
  abbrev documented : ℕ → AuditTask → AuditMode → Option AuditedJob → List AuditDocument
  documented now t mode none = []
  documented now t no_audit (some job) = []
  documented now t mode (some job) = document lower now mode job t.result ∷ []

  abbrev pub documents : List (ℕ × AuditTask) → List AuditDocument
  documents [] = []
  documents ((now, t) ∷ ts) = documented now t t.audit_mode (fetch t.job_id) ++ documents ts

  module _ (C : Collection AuditDocument) where
    abbrev pub IsServer : Type 0
    IsServer = Answers C (λ d. d.created_at) (λ d. d.job_id)

    -- Each document is newer than those before it, and of another job.
    abbrev pub InOrder : List AuditDocument → List AuditDocument → Type 0
    InOrder past [] = Unit
    InOrder past (d ∷ ds) =
        IsNew C (λ e. e.created_at) (λ e. e.job_id) d past × InOrder (past ++ d ∷ []) ds

    InOrder-append :
        (past ds es : List AuditDocument)
        → InOrder past (ds ++ es)
        → InOrder past ds × InOrder (past ++ ds) es
    InOrder-append past [] es h = (tt, rw append-nil h)
    InOrder-append past (d ∷ ds) es h =
        let (here, later) = InOrder-append (past ++ d ∷ []) ds es h.1 in
        ((h.0, here), rw (← append_assoc past (d ∷ []) ds) later)

    module _ (A : IsServer) (cap : ℕ) where
      -- The rows hold the newest of a list, about as many as `cap`.
      abbrev pub KeepsNewest : List AuditDocument → C.Rows → Type 0
      KeepsNewest = Keeps C (λ d. d.created_at) (λ d. d.job_id) A cap

      -- One task: its document, if it has one, takes its place in the ring.
      stored :
          (now : ℕ) (t : AuditTask) (mode : AuditMode) (job : AuditedJob) (r : C.Rows)
          (past : List AuditDocument)
          → 0 < cap
          → KeepsNewest past r
          → InOrder past (documented now t mode (some job))
          → KeepsNewest
              (past ++ documented now t mode (some job))
              (or_same r (persist lower C cap now mode job t.result r))
      unfolding persist
      stored now t no_audit job r past c e h = rw append-nil e
      stored now t full job r past c e h =
          let (r', f, g) =
            by_age-write_to_mongo C _ _ A cap (document lower now full job t.result) r past c e
              h.0 in
          rw f g
      stored now t metadata job r past c e h =
          let (r', f, g) =
            by_age-write_to_mongo C _ _ A cap (document lower now metadata job t.result) r past c e
              h.0 in
          rw f g

      processed :
          (now : ℕ) (t : AuditTask) (r : C.Rows) (past : List AuditDocument)
          → 0 < cap
          → KeepsNewest past r
          → InOrder past (documented now t t.audit_mode (fetch t.job_id))
          → KeepsNewest (past ++ documented now t t.audit_mode (fetch t.job_id)) (
              or_same r
                (process_audit_log lower C cap fetch now t.job_id t.result (some t.audit_mode) r))
      unfolding process_audit_log
      processed now t r past c e h = elim (Option-cases (fetch t.job_id)) [
        | inl f ↦ rw (f, process_audit_log) (rw append-nil e)
        | inr (job, f) ↦
            rw (f, process_audit_log) (stored now t t.audit_mode job r past c e (rw f at h))
      ]

      archived :
          (ts : List (ℕ × AuditTask)) (r : C.Rows) (past : List AuditDocument)
          → 0 < cap
          → KeepsNewest past r
          → InOrder past (documents ts)
          → KeepsNewest (past ++ documents ts) (archive lower C cap fetch ts r)
      unfolding archive
      archived [] r past c e h = rw append-nil e
      archived ((now, t) ∷ ts) r past c e h =
          let ds = documented now t t.audit_mode (fetch t.job_id) in
          let (here, later) = InOrder-append past ds (documents ts) h in
          rw (← append_assoc past ds (documents ts))
            (archived ts _ (past ++ ds) c (processed now t r past c e here) later)

      -- Over a server that answers, on which no document expires meanwhile, with a cap that is not 0, a
      -- collection that starts empty and tasks whose documents come each at a later time and for
      -- another job: once the archiver is through, the collection holds the documents of the tasks but
      -- for the oldest. They are no more than the cap and the number by which the server's estimate
      -- of their count may be too low; and where some are missing, at least the cap less the number by
      -- which it may be too high.
      pub archive-newest :
          (ts : List (ℕ × AuditTask)) (r : C.Rows)
          → 0 < cap
          → A.by_age r ≡ []
          → InOrder [] (documents ts)
          → KeepsNewest (documents ts) (archive lower C cap fetch ts r)
      archive-newest ts r c e h = archived ts r [] c (0, omega arith, e, (omega arith, inl refl)) h
