-- ===== src/Detached/Manage/Discovery.antt =====
-- What a discovery does to the registry (`discover_detached_tasks` of
-- linux_net/services/manager.py).
use linux_net_x.Detached.Manage.Effects.{find, find-register}
use linux_net_x.Base.{
  ℕ, String, ◌≡◌, refl, sym, ap, subst, ◌∙◌, inl, inr, Bool, true, false, ◌&&◌, not, Option, none,
  some, List, [], ◌∷◌, any_of, keep, str_eq, eq_iff, if◌then◌else◌, length, arith, Bool-cases,
  Option-cases, In, In-All, All,
}
use linux_net_x.Nodes.{NodeInfo, Result, ok, raise}
use linux_net_x.Redis.{Hash}
use linux_net_x.Manager.{Config, WorkerInfo, Job, State}
use linux_net_x.Detached.{
  running, completed, TaskMeta, Registry, register, get, list_all, same_status,
}
use linux_net_x.Detached.Manage.{
  DriverResult, or_else, Poll, pending, finished, job_failed, sync_off, discovered, await_discovery,
  discovery_dispatched, discover_detached_tasks,
}

module _ (HT : Hash TaskMeta) (mongodb_enabled : Bool) where
  module _ (now : ℕ) (host : String) (active : List String) where
    -- A running task of the host that the device does not list.
    abbrev pub is_lost : String × TaskMeta → Bool
    is_lost e =
        str_eq e.1.host host
        && same_status e.1.status running
        && not (any_of (λ t. str_eq t e.0) active)

    abbrev pub finished_at : TaskMeta → TaskMeta
    finished_at m = record m { status = completed; last_sync = some now }

    abbrev sweep : List (String × TaskMeta) → Registry HT → ℕ × Registry HT
    sweep = sync_off HT mongodb_enabled now host active

    -- The entry after the loop is that of the last task under its key that is lost, if there is one.
    sync_off-other :
        (k : String) (tasks : List (String × TaskMeta)) (r : Registry HT)
        → All (λ e. e.0 ≡ k → is_lost e ≡ false) tasks
        → find HT mongodb_enabled k (sweep tasks r).1 ≡ find HT mongodb_enabled k r
    unfolding sync_off
    sync_off-other k [] r h = refl
    sync_off-other k ((j, m) ∷ tasks) r h = elim (Bool-cases (is_lost (j, m))) [
      | inr e ↦ rw e (sync_off-other k tasks r h.1)
      | inl e ↦
          let ne : str_eq j k ≡ false = ground (arith, eq_iff j k, h.0) in
          rw e (
            sync_off-other k tasks _ h.1
            ∙ find-register HT mongodb_enabled j k (finished_at m) r
            ∙ rw ne refl)
    ]

    sync_off-done :
        (k : String) (m : TaskMeta) (tasks : List (String × TaskMeta)) (r : Registry HT)
        → All (λ e. e.0 ≡ k → e.1 ≡ m) tasks
        → find HT mongodb_enabled k r ≡ some (finished_at m)
        → find HT mongodb_enabled k (sweep tasks r).1 ≡ some (finished_at m)
    unfolding sync_off
    sync_off-done k m [] r h f = f
    sync_off-done k m ((j, n) ∷ tasks) r h f = elim (Bool-cases (is_lost (j, n))) [
      | inr e ↦ rw e (sync_off-done k m tasks r h.1 f)
      | inl e ↦ rw e (
          sync_off-done k m tasks _ h.1 (
            find-register HT mongodb_enabled j k (finished_at n) r
            ∙ (elim (Bool-cases (str_eq j k)) [
              | inl q ↦ rw q (ap (λ x. some (finished_at x)) (h.0 ((eq_iff j k).0 q)))
              | inr q ↦ rw q f
            ])))
    ]

    sync_off-lost :
        (k : String) (m : TaskMeta) (tasks : List (String × TaskMeta)) (r : Registry HT)
        → All (λ e. e.0 ≡ k → e.1 ≡ m) tasks
        → In (k, m) tasks
        → is_lost (k, m) ≡ true
        → find HT mongodb_enabled k (sweep tasks r).1 ≡ some (finished_at m)
    unfolding sync_off
    sync_off-lost k m [] r h i lost = absurd i
    sync_off-lost k m ((j, n) ∷ tasks) r h (inr i) lost = elim (Bool-cases (is_lost (j, n))) [
      | inr e ↦ rw e (sync_off-lost k m tasks r h.1 i lost)
      | inl e ↦ rw e (sync_off-lost k m tasks _ h.1 i lost)
    ]
    sync_off-lost k m ((j, n) ∷ tasks) r h (inl same) lost =
        let e : is_lost (j, n) ≡ true = subst (λ x. is_lost x ≡ true) same lost in
        let q : str_eq j k ≡ true =
          (eq_iff j k).1 (ap (λ (x : String × TaskMeta). x.0) (sym same)) in
        rw e (
          sync_off-done k m tasks _ h.1 (
            find-register HT mongodb_enabled j k (finished_at n) r
            ∙ rw q
                (ap (λ x. some (finished_at x)) (ap (λ (x : String × TaskMeta). x.1) (sym same)))))

    sync_off-count :
        (tasks : List (String × TaskMeta)) (r : Registry HT)
        → (sweep tasks r).0 ≡ length (keep is_lost tasks)
    unfolding sync_off
    sync_off-count [] r = refl
    sync_off-count ((j, m) ∷ tasks) r = elim (Bool-cases (is_lost (j, m))) [
      | inl e ↦
          rw e
            (omega (arith, sync_off-count tasks (register HT mongodb_enabled j (finished_at m) r)))
      | inr e ↦ rw e (sync_off-count tasks r)
    ]

    -- The entry under `k` after a discovery, from the one before.
    abbrev pub after_discovery : String → Option TaskMeta → Option TaskMeta
    after_discovery k none = none
    after_discovery k (some m) = if is_lost (k, m) then some (finished_at m) else some m

    -- A listing pairs each key with its entry.
    list_all-entry :
        (k : String) (r : Registry HT) (x : String × TaskMeta)
        → In x (list_all HT r)
        → x.0 ≡ k
        → find HT mongodb_enabled k r ≡ some x.1
    unfolding list_all get
    list_all-entry k r x i q = ap (HT.hget r.table) (sym q) ∙ HT.hget_of_hscan r.table x.0 x.1 i

    listed :
        (k : String) (m : TaskMeta) (r : Registry HT)
        → find HT mongodb_enabled k r ≡ some m
        → In (k, m) (list_all HT r)
    unfolding list_all get
    listed k m r e = HT.hscan_of_hget r.table k m e

    same_entry :
        (k : String) (m : TaskMeta) (r : Registry HT) (x : String × TaskMeta)
        → find HT mongodb_enabled k r ≡ some m
        → In x (list_all HT r)
        → x.0 ≡ k
        → x ≡ (k, m)
    same_entry k m r x e i q =
        let f : some m ≡ some x.1 = sym e ∙ list_all-entry k r x i q in
        let g : x.1 ≡ m = cc in ap (λ w. (x.0, w)) g ∙ ap (λ j. (j, m)) q

    no_entry :
        (k : String) (r : Registry HT) (x : String × TaskMeta)
        → find HT mongodb_enabled k r ≡ none
        → In x (list_all HT r)
        → ¬ (x.0 ≡ k)
    no_entry k r x e i q = let f : none ≡ some x.1 = sym e ∙ list_all-entry k r x i q in cc

    -- The entry under `k` is what a discovery makes of the one before.
    sweep-entry :
        (k : String) (r : Registry HT)
        → find HT mongodb_enabled k (sweep (list_all HT r) r).1
          ≡ after_discovery k (find HT mongodb_enabled k r)
    sweep-entry k r = elim (Option-cases (find HT mongodb_enabled k r)) [
      | inl e ↦ rw e (
          sync_off-other k (list_all HT r) r (
            In-All (list_all HT r) (λ x. x.0 ≡ k → is_lost x ≡ false)
              (λ x i q. absurd (no_entry k r x e i q)))
          ∙ e)
      | inr (m, e) ↦ rw e (elim (Bool-cases (is_lost (k, m))) [
        | inl lost ↦ rw lost (
            sync_off-lost k m (list_all HT r) r
              (In-All (list_all HT r) (λ x. x.0 ≡ k → x.1 ≡ m)
                (λ x i q. ap (λ (y : String × TaskMeta). y.1) (same_entry k m r x e i q)))
              (listed k m r e) lost)
        | inr kept ↦ rw kept (
            sync_off-other k (list_all HT r) r (
              In-All (list_all HT r) (λ x. x.0 ≡ k → is_lost x ≡ false)
                (λ x i q. ap is_lost (same_entry k m r x e i q) ∙ kept))
            ∙ e)
      ])
    ]

  module _ (now : ℕ) (host : String) where
    -- The outcome of a discovery that answers with two counts, on a job that returned `res` first.
    pub record Discovered (n : ℕ × ℕ) (polls : List Poll) (r s : Registry HT) : Type 0 where
      pub res : DriverResult
      pub results : List DriverResult
      pub seen : In (finished (res ∷ results)) polls
      pub counts : n ≡ (
        length (or_else [] res.active_tasks),
        length (keep (is_lost now host (or_else [] res.active_tasks)) (list_all HT r)),
      )
      pub entry :
          (k : String)
          → find HT mongodb_enabled k s
            ≡ after_discovery now host (or_else [] res.active_tasks) k (find HT mongodb_enabled k r)

    later_poll :
        (n : ℕ × ℕ) (p : Poll) (polls : List Poll) (r s : Registry HT)
        → Discovered n polls r s
        → Discovered n (p ∷ polls) r s
    later_poll n p polls r s d = record {
      res = d.res;
      results = d.results;
      seen = inr d.seen;
      counts = d.counts;
      entry = d.entry;
    }

    discovered-Discovered :
        (results : List DriverResult) (polls : List Poll) (r : Registry HT) (n : ℕ × ℕ)
        → (discovered HT mongodb_enabled now host results r).0 ≡ ok n
        → Discovered n
            (finished results ∷ polls)
            r
            (discovered HT mongodb_enabled now host results r).1
    unfolding discovered
    discovered-Discovered [] polls r n h = cc
    discovered-Discovered (res ∷ results) polls r n h =
        let active = or_else [] res.active_tasks in
        let told : n
            ≡ (length active, (sync_off HT mongodb_enabled now host active (list_all HT r) r).0) =
          cc in
        record {
          res = res;
          results = results;
          seen = inl refl;
          counts =
              told
              ∙ ap (λ l. (length active, l)) (sync_off-count now host active (list_all HT r) r);
          entry = λ k. sweep-entry now host active k r;
        }

    await_discovery-Discovered :
        (polls : List Poll) (r : Registry HT) (n : ℕ × ℕ)
        → (await_discovery HT mongodb_enabled now host polls r).0 ≡ ok n
        → Discovered n polls r (await_discovery HT mongodb_enabled now host polls r).1
    unfolding await_discovery
    await_discovery-Discovered [] r n h = cc
    await_discovery-Discovered (pending ∷ polls) r n h =
        later_poll n pending polls r _ (await_discovery-Discovered polls r n h)
    await_discovery-Discovered (job_failed ∷ polls) r n h = cc
    await_discovery-Discovered (finished results ∷ polls) r n h =
        discovered-Discovered results polls r n h

    module _ (HS : Hash String) (HN : Hash NodeInfo) (c : Config)
        (workers : String → List WorkerInfo)
        (select : List NodeInfo → String → Result NodeInfo) where
      discovery_dispatched-Discovered :
          (polls : List Poll) (sent : Result Job) (r : Registry HT) (n : ℕ × ℕ)
          → let x =
              discovery_dispatched HT mongodb_enabled HS HN c workers select now host polls sent
                r in
            x.0 ≡ ok n → Discovered n polls r x.1
      unfolding discovery_dispatched
      discovery_dispatched-Discovered polls (raise e) r n h = cc
      discovery_dispatched-Discovered polls (ok job) r n h = await_discovery-Discovered polls r n h

      -- A discovery that answers has seen its job finish with a first result. It reports how many
      -- tasks that result lists, and how many running tasks of the host are not among them; exactly
      -- these are marked as completed, at the time of the discovery, and every other entry, or
      -- missing entry, is as before.
      pub discover_detached_tasks-marks :
          (polls : List Poll) (s : State HS HN) (r : Registry HT) (n : ℕ × ℕ)
          → (discover_detached_tasks HT mongodb_enabled HS HN c workers select now host polls s r).0
            ≡ ok n
          → Discovered n polls r
              (discover_detached_tasks HT mongodb_enabled HS HN c workers select now host polls s
                r).2
      unfolding discover_detached_tasks
      discover_detached_tasks-marks polls s r n h = discovery_dispatched-Discovered polls _ r n h
