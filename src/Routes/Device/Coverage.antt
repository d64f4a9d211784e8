-- ===== src/Routes/Device/Coverage.antt =====
-- From the endpoint of a bulk to the queues: no device is lost.
use linux_net_x.Base.{
  String, ◌≡◌, ◌∙◌, refl, ap, sym, subst, not, Option, none, some, List, [], ◌∷◌, map, inl, inr,
  Bool-cases, str_eq,
}
use linux_net_x.Nodes.{NodeInfo, Result, ok, raise, value_error, ◌>>=◌}
use linux_net_x.Redis.{Hash}
use linux_net_x.Manager.{Config, WorkerInfo, Job, State}
use linux_net_x.Manager.Dispatch.{pinned}
use linux_net_x.Manager.Bulk.{FailedItem}
use linux_net_x.Manager.Execute.Coverage.{
  BulkCovered, execute_on_bulk_devices-BulkCovered, execute_on_bulk_devices_answers,
}
use linux_net_x.Detached.{TaskMeta}
use linux_net_x.Request.{DriverName}
use linux_net_x.Credentials.Vault.Provider.{ConnectionArgs}
use linux_net_x.Routes.Device.{
  Credentials, CredentialRef, ExecRequest, BulkDevice, resolve_request_credentials, resolve_ref,
  resolve_by, name_of, expand, to_execution, check_driver, first_checked, prepared_bulk,
  send_expanded, execute_on_bulk_devices_route,
}
use linux_net_x.Routes.Device.Expansion.{ExpandsAll, one_more, Expanded, expand-ExpandsAll}

module _ {A B : Type 0} where
  >>=-eq-ok :
      (m : Result A) (f : A → Result B) (b : B)
      → (m >>= f) ≡ ok b
      → (a : A) × (m ≡ ok a) × (f a ≡ ok b)
  >>=-eq-ok (ok a) f b h = (a, refl, h)
  >>=-eq-ok (raise e) f b h = cc

module _ (creds : Credentials) (drivers : DriverName → Option (ExecRequest → Result (Unit {0})))
    (HS : Hash String) (HN : Hash NodeInfo) (HT : Hash TaskMeta) (c : Config)
    (workers : String → List WorkerInfo)
    (select : List NodeInfo → List String → Result (List (Option NodeInfo))) where
  resolve_by_keeps :
      (o : Option (CredentialRef → ConnectionArgs → Result ConnectionArgs)) (ref : CredentialRef)
      (req r : ExecRequest)
      → resolve_by creds o ref req ≡ ok r
      → r.request ≡ req.request
  unfolding resolve_by
  resolve_by_keeps none ref req r h = cc
  resolve_by_keeps (some resolve) ref req r h =
      let (args, f, g) = >>=-eq-ok (resolve ref req.connection_args) _ r h in
      let p : record req { connection_args = args; credential = none } ≡ r = cc in
      ap (λ x. x.request) (sym p)

  resolve_ref_keeps :
      (o : Option CredentialRef) (req r : ExecRequest)
      → resolve_ref creds o req ≡ ok r
      → r.request ≡ req.request
  unfolding resolve_ref
  resolve_ref_keeps none req r h = let p : req ≡ r = cc in ap (λ x. x.request) (sym p)
  resolve_ref_keeps (some ref) req r h = elim (Bool-cases (not creds.enabled)) [
    | inl e ↦ let h' : raise value_error ≡ ok r = rw e at h in cc
    | inr e ↦ elim (Bool-cases (not (str_eq (name_of creds ref) creds.name))) [
      | inl f ↦ let h' : raise value_error ≡ ok r = rw (e, f) at h in cc
      | inr f ↦
          resolve_by_keeps (creds.provider (name_of creds ref))
            (record ref { name = some (name_of creds ref) }) req r (rw (e, f) at h)
    ]
  ]

  -- The credentials fill in the connection, and the rest of the request stays.
  resolve_keeps_request :
      (req r : ExecRequest) → resolve_request_credentials creds req ≡ ok r → r.request ≡ req.request
  unfolding resolve_request_credentials
  resolve_keeps_request req r h = resolve_ref_keeps req.credential req r h

  first_checked_same : (es fs : List ExecRequest) → first_checked creds drivers es ≡ ok fs → es ≡ fs
  unfolding first_checked
  first_checked_same [] fs h = cc
  first_checked_same (e ∷ es) fs h =
      let (u, f, g) = >>=-eq-ok (check_driver creds drivers e) _ fs h in cc

  -- What the endpoint has done with a bulk: its devices are expanded from the request with its
  -- credentials, and each of them has its job, or is reported. The jobs that it returns are on the
  -- queues, where it has put nothing else but spawn jobs.
  pub record BulkSent (base : ExecRequest) (devices : List BulkDevice) (requests : List ExecRequest)
      (s : State HS HN) (x : Result (List Job × List FailedItem) × State HS HN) : Type 0 where
    pub resolved : ExecRequest
    pub sent : List Job
    pub failed : List FailedItem
    pub hydrated : resolve_request_credentials creds base ≡ ok resolved
    pub expanded : ExpandsAll resolved devices requests
    pub answered : x.0 ≡ ok (sent, failed)
    pub covered :
        BulkCovered HS HN HT c workers select (map to_execution requests) sent failed s x.1

  module _ (base : ExecRequest) (devices : List BulkDevice) (requests : List ExecRequest)
      (s : State HS HN) (p : base.request.queue_strategy ≡ some pinned) where
    abbrev send : Result (List ExecRequest) → Result (List Job × List FailedItem) × State HS HN
    send x = send_expanded creds drivers HS HN HT c workers select x s

    strategy :
        {e r : ExecRequest} {d : BulkDevice}
        → Expanded r d e
        → r.request ≡ base.request
        → (to_execution e).queue_strategy ≡ some pinned
    unfolding to_execution
    strategy x q = ap (λ y. y.queue_strategy) x.operates.kept ∙ ap (λ y. y.queue_strategy) q ∙ p

    covered_by :
        (ds : List BulkDevice) (es : List ExecRequest) (r : ExecRequest)
        → ExpandsAll r ds es
        → r.request ≡ base.request
        → (sent : List Job) × (failed : List FailedItem) × ((send (ok es)).0 ≡ ok (sent, failed))
          × BulkCovered HS HN HT c workers select
              (map to_execution es)
              sent
              failed
              s
              (send (ok es)).1
    unfolding send_expanded
    covered_by ds [] r x q = ([], [], refl, (refl, refl))
    covered_by [] (e ∷ es) r x q = elim x [ ]
    covered_by (d ∷ ds) (e ∷ es) r (one_more x xs) q =
        let (sent, failed, f) =
          execute_on_bulk_devices_answers HS HN HT c workers select (to_execution e)
            (map to_execution es) s (strategy x q) in
        (
          sent,
          failed,
          f,
          execute_on_bulk_devices-BulkCovered HS HN HT c workers select (to_execution e)
              (map to_execution es) s sent failed (strategy x q) f,
        )

    -- When a bulk with a pinned strategy passes the checks of the endpoint, the endpoint answers.
    -- Each device has one request, made from the bulk's with its credentials, and that request has a
    -- job for its host's queue among the jobs returned, or its host is among the failed. The jobs
    -- returned have been put on the queues, after spawn jobs and nothing else.
    pub bulk_route-BulkSent :
        prepared_bulk creds drivers base devices ≡ ok requests
        → BulkSent base devices requests s
            (execute_on_bulk_devices_route creds drivers HS HN HT c workers select base devices s)
    unfolding execute_on_bulk_devices_route prepared_bulk
    bulk_route-BulkSent f =
        let (r, a, b) = >>=-eq-ok (resolve_request_credentials creds base) _ requests f in
        let (ds, d, g) = >>=-eq-ok (expand r devices) _ requests b in
        let x =
          subst (ExpandsAll r devices) (first_checked_same ds requests g)
            (expand-ExpandsAll r devices ds d) in
        let (sent, failed, k, cov) =
          covered_by devices requests r x (resolve_keeps_request base r a) in
        record {
          resolved = r;
          sent = sent;
          failed = failed;
          hydrated = a;
          expanded = x;
          answered = ap (λ x. (send x).0) f ∙ k;
          covered =
              subst
                (λ x.
                  BulkCovered HS HN HT c workers select (map to_execution requests) sent failed s x)
                (sym (ap (λ x. (send x).1) f)) cov;
        }
