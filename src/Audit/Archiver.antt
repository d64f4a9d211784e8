-- ===== src/Audit/Archiver.antt =====
-- linux_net/worker/archiver.py. The MongoDB collections are a parameter; `none` stands for an
-- exception of the server.
pub mod Ring
pub mod Refinement
use linux_net_x.Base.{
  ℕ, zero, ◌-◌, min, String, Bool, true, false, ◌||◌, Option, none, some, List, [], ◌∷◌, leb,
  if◌then◌else◌,
}
use linux_net_x.Audit.Masking.{Json, mask_sensitive_data}
use linux_net_x.Audit.Callback.{
  AuditMode, full, no_audit, AuditedJob, get_job_audit_mode, AuditTask,
}

-- What the archiver asks of a collection. `find_oldest` is
-- `find({}, {"_id": 1}).sort("created_at", 1).limit(n)`.
pub record Collection (D : Type 0) : Type 1 where
  pub Rows : Type 0
  pub insert_one : D → Rows → Option Rows
  pub estimated_document_count : Rows → Option ℕ
  pub find_oldest : ℕ → Rows → Option (List ℕ)
  pub delete_many : List ℕ → Rows → Option Rows

abbrev pub or_same {ℓ} : {A : Type ℓ} → A → Option A → A
or_same a none = a
or_same a (some b) = b

module _ {D : Type 0} (C : Collection D) where
  open C use {Rows, insert_one, estimated_document_count, find_oldest, delete_many}

  -- The deletion of what was found: nothing where nothing was, or where the server fails.
  unfoldable pub delete_found : Option (List ℕ) → Rows → Rows
  delete_found none rows = rows
  delete_found (some []) rows = rows
  delete_found (some (id ∷ ids)) rows = or_same rows (delete_many (id ∷ ids) rows)

  unfoldable pub prune_counted : ℕ → ℕ → Option ℕ → Rows → Rows
  unfolding delete_found
  prune_counted max_documents batch_size none rows = rows
  prune_counted max_documents batch_size (some count) rows =
      if leb count max_documents
      then rows
      else delete_found (find_oldest (min (count - max_documents) batch_size) rows) rows

  unfoldable pub prune_collection_by_count : ℕ → ℕ → Rows → Rows
  unfolding prune_counted
  prune_collection_by_count max_documents batch_size rows =
      if leb max_documents 0 || leb batch_size 0
      then rows
      else prune_counted max_documents batch_size (estimated_document_count rows) rows

  -- `is_audit_collection` is `c_name == g_config.mongodb.collection`.
  unfoldable pub write_to_mongo : Bool → ℕ → D → Rows → Option Rows
  unfolding prune_collection_by_count
  write_to_mongo is_audit_collection max_documents doc rows = elim (insert_one doc rows) [
    | none ↦ none
    | some rows' ↦
        some (
          if is_audit_collection then prune_collection_by_count max_documents 1000 rows' else rows')
  ]

-- The document of a job, without the duration that its times give.
pub record AuditDocument : Type 0 where
  pub job_id : String
  pub status : String
  pub created_at : ℕ
  pub audit_mode : AuditMode
  pub enqueued_at : Option ℕ
  pub started_at : Option ℕ
  pub ended_at : Option ℕ
  pub result : Option Json
  pub meta : Option (Json × Json)
  pub request : Option Json

pub record DetachedDocument : Type 0 where
  pub task_id : String
  pub recorded_at : ℕ
  pub metadata : Json
  pub job_id : Option String

module _ (lower : String → String) where
  abbrev mask : Json → Json
  mask = mask_sensitive_data lower

  unfoldable pub result_of : AuditMode → Json → Option Json
  result_of full result = some (mask result)
  result_of _ result = none

  abbrev masked_request : Option Json → Option Json
  masked_request none = none
  masked_request (some request) = some (mask request)

  unfoldable pub document : ℕ → AuditMode → AuditedJob → Json → AuditDocument
  unfolding result_of
  document now mode job result = record {
    job_id = job.id;
    status = job.status;
    created_at = now;
    audit_mode = mode;
    enqueued_at = job.enqueued_at;
    started_at = job.started_at;
    ended_at = job.ended_at;
    result = result_of mode result;
    meta = job.meta;
    request = masked_request job.request;
  }

  module _ (C : Collection AuditDocument) (max_documents : ℕ) where
    unfoldable pub persist : ℕ → AuditMode → AuditedJob → Json → C.Rows → Option C.Rows
    unfolding document write_to_mongo
    persist now no_audit job result rows = some rows
    persist now mode job result rows =
        write_to_mongo C true max_documents (document now mode job result) rows

    -- `fetch` is `Job.fetch`, which raises for a job that Redis no longer has. An exception is
    -- logged and raised again; `none` stands for it.
    unfoldable pub process_audit_log :
        (String → Option AuditedJob) → ℕ → String → Json → Option AuditMode → C.Rows → Option C.Rows
    unfolding persist
    process_audit_log fetch now job_id result audit_mode rows = elim (fetch job_id) [
      | none ↦ none
      | some job ↦ persist now (or_same (get_job_audit_mode job) audit_mode) job result rows
    ]

    -- The archiver takes the jobs of AuditLogQ in turn, each at a time; one that raises is left
    -- failed.
    unfoldable pub archive : (String → Option AuditedJob) → List (ℕ × AuditTask) → C.Rows → C.Rows
    unfolding process_audit_log
    archive fetch [] rows = rows
    archive fetch ((now, t) ∷ ts) rows =
        archive fetch ts
          (or_same rows (process_audit_log fetch now t.job_id t.result (some t.audit_mode) rows))

  -- A lifecycle event of a detached task; its exceptions are only logged.
  unfoldable pub process_detached_audit :
      (C : Collection DetachedDocument) → ℕ → ℕ → String → Json → Option String → C.Rows → C.Rows
  unfolding write_to_mongo
  process_detached_audit C max_documents now task_id metadata job_id rows = or_same rows (
      write_to_mongo C false max_documents
        (record { task_id = task_id; recorded_at = now; metadata = mask metadata; job_id = job_id })
        rows)
