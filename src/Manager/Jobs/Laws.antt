-- ===== src/Manager/Jobs/Laws.antt =====
-- What the job lists hold, and what a cancellation changes.
use linux_net_x.Base.{
  ℕ, zero, suc, ◌≤◌, String, ◌≡◌, ap, inl, inr, true, Option, none, some, List, [], ◌∷◌, any_of,
  length, take, In, All, arith, str_eq, if◌then◌else◌, Option-cases,
}
use linux_net_x.Manager.Jobs.{
  JobStatus, queued, canceled, Rq, ids_of, jobs_by_ids, queue_limited, jobs_of_ids, jobs_of_queue,
  ids_by_status, get_job_list, Statuses,
}

length-take : {A : Type 0} (n : ℕ) (xs : List A) → length (take n xs) ≤ n
length-take zero xs = omega arith
length-take (suc n) [] = omega arith
length-take (suc n) (x ∷ xs) = omega (arith, length-take n xs)

module _ (A : Type 0) (rq : Rq A) where
  length-jobs_by_ids : (ids : List String) → length (jobs_by_ids A rq ids) ≤ length ids
  unfolding jobs_by_ids
  length-jobs_by_ids [] = omega arith
  length-jobs_by_ids (id ∷ ids) = elim (Option-cases (rq.fetch id)) [
    | inl e ↦ rw (e, jobs_by_ids) (omega (arith, length-jobs_by_ids ids))
    | inr (job, e) ↦ rw (e, jobs_by_ids) (omega (arith, length-jobs_by_ids ids))
  ]

  -- A list of jobs is not longer than a limit that is not 0, whatever it is filtered by.
  pub length-get_job_list :
      (q_name : Option String) (status : Option JobStatus) (n : ℕ) (jobs : List A)
      → get_job_list A rq q_name status (some (suc n)) ≡ some jobs
      → length jobs ≤ suc n
  unfolding get_job_list jobs_of_ids jobs_of_queue queue_limited
  length-get_job_list (some q) (some status) n jobs e = given (ids_of A rq status q) e
    where
      given :
          (o : Option (List String))
          → jobs_of_ids A rq (some (suc n)) o ≡ some jobs
          → length jobs ≤ suc n
      given none e = cc
      given (some ids) e =
          let f : take (suc n) (jobs_by_ids A rq ids) ≡ jobs = cc in
          omega (arith, ap length f, length-take (suc n) (jobs_by_ids A rq ids))
  length-get_job_list (some q) none n jobs e = given (rq.job_ids q) e
    where
      given :
          (o : Option (List String))
          → jobs_of_queue A rq (some (suc n)) o ≡ some jobs
          → length jobs ≤ suc n
      given none e = cc
      given (some ids) e =
          let f : take (suc n) (jobs_by_ids A rq (take (suc n) ids)) ≡ jobs = cc in
          omega (arith, ap length f, length-take (suc n) (jobs_by_ids A rq (take (suc n) ids)))
  length-get_job_list none (some status) n jobs e =
      let f : take (suc n) (jobs_by_ids A rq (ids_by_status A rq status)) ≡ jobs = cc in
      omega (arith, ap length f, length-take (suc n) (jobs_by_ids A rq (ids_by_status A rq status)))
  length-get_job_list none none n jobs e =
      let f : jobs_by_ids A rq (take (suc n) rq.all_job_ids) ≡ jobs = cc in
      omega (
        arith,
        ap length f,
        length-jobs_by_ids (take (suc n) rq.all_job_ids),
        length-take (suc n) rq.all_job_ids,
      )

  -- Of the jobs `ids`, those that are queued and that can be cancelled are cancelled, and no other
  -- job changes; each is reported, and no job that is not one of `ids`.
  pub record Cancels (ids : List String) (s : Statuses A rq) (r : List String × Statuses A rq)
      : Type 0 where
    pub were_addressed : All (λ id. In id ids) r.0
    pub were_queued : All (λ id. s id ≡ some queued) r.0
    pub changed :
        (k : String) → r.1 k ≡ (if any_of (λ id. str_eq k id) r.0 then some canceled else s k)
    pub reported :
        (k : String)
        → In k ids
        → s k ≡ some queued
        → rq.cancels k ≡ true
        → any_of (λ id. str_eq k id) r.0 ≡ true

  -- The jobs that a request to cancel is about.
  abbrev pub addressed : Option String → List String → List String
  addressed (some id) ids = id ∷ []
  addressed none ids = ids
