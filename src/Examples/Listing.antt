-- ===== src/Examples/Listing.antt =====
-- The jobs of one queue.
use linux_net_x.Base.{String, ◌≡◌, refl, true, none, some, List, [], ◌∷◌, str_eq, if◌then◌else◌}
use linux_net_x.Manager.Jobs.{
  queued, started, Rq, get_job_list, jobs_of_queue, queue_limited, jobs_by_ids, Statuses,
  set_canceled,
}

abbrev ids : List String
ids = "a" ∷ "b" ∷ []

abbrev rq : Rq String
rq = record {
  job_ids = λ q. some ids;
  registry = λ status q. some [];
  worker_queues = [];
  worker_names = λ q. [];
  all_job_ids = ids;
  fetch = λ id. some id;
  cancels = λ id. true;
}

abbrev one_id : List String
one_id = "a" ∷ []

one_job : get_job_list String rq (some "FifoQ") none (some 1) ≡ some one_id
unfolding get_job_list jobs_of_queue queue_limited jobs_by_ids
one_job = refl

-- The first job is queued, and all others have started.
abbrev statuses : Statuses String rq
statuses k = if str_eq k "a" then some queued else some started

abbrev after : List String × Statuses String rq
after = ("a" ∷ [], set_canceled String rq "a" statuses)
