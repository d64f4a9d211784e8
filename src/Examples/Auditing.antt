-- ===== src/Examples/Auditing.antt =====
-- An archive of one record, and documents that differ in a password.
use linux_net_x.Base.{
  ℕ, zero, suc, min, String, ◌≡◌, ◌≢◌, ◌∙◌, refl, sym, ap, ◌↔◌, true, false, none, some, List, [],
  ◌∷◌, ◌++◌, ◌-◌, map, length, length-map, take, drop, arith, eq_iff,
}
use linux_net_x.Audit.Masking.{Json, text, dict, end, field, is_sensitive, mask_sensitive_data}
use linux_net_x.Audit.Masking.Laws.{
  Alike, dicts, secret, plain, ends, texts, mask_sensitive_data-Alike,
}
use linux_net_x.Audit.Callback.{
  full, AuditedJob, AuditTask, CallbackArgs, returned, model, serialize,
}
use linux_net_x.Audit.Archiver.{Collection, AuditDocument, archive, document}
use linux_net_x.Audit.Archiver.Refinement.{IsServer, KeepsNewest, documents, archive-newest}
use linux_net_x.Audit.Secrecy.{audited, audit-Alike}

abbrev lower : String → String
lower s = s

with_password : String → Json
with_password p = dict (field "host" (text "h") (field "password" (text p) end))

password-is_sensitive : is_sensitive lower "password" ≡ true
unfolding is_sensitive
password-is_sensitive = refl

-- The names of the drivers' other secrets are not among the sensitive keys.
pkey_is_plain : is_sensitive lower "pkey" ≡ false
unfolding is_sensitive
pkey_is_plain = refl

passwords : Alike lower (with_password "a") (with_password "b")
unfolding with_password
passwords =
    dicts (
      plain "host" (texts "h") (secret "password" (text "a") (text "b") password-is_sensitive ends))

mask_sensitive_data-Alike_example :
    (mask_sensitive_data lower (with_password "a") ≡ mask_sensitive_data lower (with_password "b"))
    ↔ Alike lower (with_password "a") (with_password "b")
mask_sensitive_data-Alike_example =
    mask_sensitive_data-Alike lower (with_password "a") (with_password "b")

-- A server whose documents stand in the order of their insertion, and that counts one too few.
abbrev found : ℕ → List AuditDocument → List ℕ
found n rows = map (λ d. d.created_at) (take n rows)

abbrev server : Collection AuditDocument
server = record {
  Rows = List AuditDocument;
  insert_one = λ d rows. some (rows ++ d ∷ []);
  estimated_document_count = λ rows. some (length rows - 1);
  find_oldest = λ n rows. some (found n rows);
  delete_many = λ ids rows. some (drop (length ids) rows);
}

length-take : (n : ℕ) (rows : List AuditDocument) → length (take n rows) ≡ min n (length rows)
length-take zero rows = omega arith
length-take (suc n) [] = omega arith
length-take (suc n) (d ∷ rows) = omega (arith, length-take n rows)

drop-take : (n : ℕ) (rows : List AuditDocument) → drop (length (take n rows)) rows ≡ drop n rows
drop-take zero rows = refl
drop-take (suc n) [] = refl
drop-take (suc n) (d ∷ rows) = drop-take n rows

drop-found : (n : ℕ) (rows : List AuditDocument) → drop (length (found n rows)) rows ≡ drop n rows
drop-found n rows =
    ap (λ k. drop k rows) (length-map (λ d. d.created_at) (take n rows)) ∙ drop-take n rows

server-Answers : IsServer lower (λ id. none) server
server-Answers = record {
  overcount = 0;
  undercount = 1;
  by_age = λ rows. rows;
  inserts = λ d rows h. (rows ++ d ∷ [], refl, refl);
  counts = λ rows. (length rows - 1, refl, omega arith, omega arith);
  finds = λ n rows.
      (found n rows, refl, length-map (λ d. d.created_at) (take n rows) ∙ length-take n rows);
  deletes = λ n rows ids e.
      let p : found n rows ≡ ids = cc in
      (drop (length ids) rows, refl, ap (λ l. drop (length l) rows) (sym p) ∙ drop-found n rows);
}

abbrev job : String → AuditedJob
job id = record {
  id = id;
  status = "finished";
  enqueued_at = none;
  started_at = none;
  ended_at = none;
  request_mode = none;
  payload_mode = none;
  request = none;
  meta = none;
}

abbrev task : String → AuditTask
task id = record { job_id = id; result = with_password id; audit_mode = full }

abbrev tasks : List (ℕ × AuditTask)
tasks = (5, task "a") ∷ (7, task "b") ∷ []

a_not_b : ◌≢◌ {A = String} "a" "b"
a_not_b = ground (arith, eq_iff "a" "b")

archive-newest_example :
    KeepsNewest lower
      (λ id. some (job id))
      server
      server-Answers
      1
      (documents lower (λ id. some (job id)) tasks)
      (archive lower server 1 (λ id. some (job id)) tasks [])
unfolding document server-Answers
archive-newest_example =
    archive-newest lower (λ id. some (job id)) server server-Answers 1 tasks [] (omega arith) refl
      (tt, (((omega arith, a_not_b), tt), tt))

abbrev after_run : String → CallbackArgs
after_run p = returned (model (with_password p))

audit-Alike_example :
    audited lower server 1 9 true
      (record (job "j") { request = some (with_password "a") })
      (after_run "a")
      []
    ≡ audited lower server 1 9 true
        (record (job "j") { request = some (with_password "b") })
        (after_run "b")
        []
unfolding serialize
audit-Alike_example =
    audit-Alike lower server 1 9 true (job "j") (with_password "a") (with_password "b") passwords
      (after_run "a") (after_run "b") passwords []
