-- ===== src/Node/Pinning/World.antt =====
-- All nodes together: the interleavings of their operations, of crashes with restarts, and of a
-- controller that deletes nodes, as histories.
use linux_net_x.Base.{
  ℕ, String, ◌≡◌, ◌≢◌, refl, sym, ap, subst, inl, inr, Option, none, some, List, [], ◌∷◌, map,
  str_eq, eq_iff, if◌then◌else◌, arith, Bool-cases, All, All-at, In,
}
use linux_net_x.Nodes.{NodeInfo}
use linux_net_x.Pids.{Pids, In-Unique}
use linux_net_x.Redis.{Hash, hget-hdel_all-In}
use linux_net_x.Node.{
  Proc, Store, add, sigchld_handler, remove_job, cleanup, signaled_to_exit, register, force_delete,
  new_proc,
}
use linux_net_x.Node.Pinning.{NodeInv, Registered, Frame-refl, MatchesPid, NodeInv-Frame}
use linux_net_x.Node.Pinning.Steps.{Good, FreshStart, add-Good, sigchld_handler-NodeInv}
use linux_net_x.Node.Pinning.Cleaning.{
  remove_job-Good, cleanup-Good, register-Good, force_delete-Good,
}

-- What may happen to a node next: a spawn job, exits of children, the first clean-up job of its
-- queue, the signal to exit, its shutdown, a new process in place of the old one, and its deletion by a controller.
pub data Event : Type 0 where
  spawn : Option ℕ → String → Event
  children_exit : List ℕ → Event
  run_removal : Event
  signal : Event
  stop : Event
  restart : ℕ → String → Event
  purge : Event

module _ (HS : Hash String) (HN : Hash NodeInfo) where
  unfoldable pub run_first : String → List (ℕ × String) → Proc → Store HS HN → Proc × Store HS HN
  run_first name [] p s = (p, s)
  run_first name ((pid, host) ∷ rest) p s =
      remove_job HS HN name pid host (record p { removals = rest }) s

  unfoldable pub handle : String → Event → Proc → Store HS HN → Proc × Store HS HN
  unfolding run_first
  handle name (spawn start host) p s = let r = add HS HN name start host p s in (r.1, r.2)
  handle name (children_exit pids) p s = (sigchld_handler HS HN name pids p, s)
  handle name run_removal p s = run_first name p.removals p s
  handle name signal p s = (signaled_to_exit HS HN name p, s)
  handle name stop p s = cleanup HS HN name p s
  handle name (restart capacity queue) p s =
      (new_proc p.removals, register HS HN name capacity queue s)
  handle name purge p s = (p, force_delete HS HN name s)

  -- A started child has a pid that is neither in the node's table nor among its queued removals, and
  -- a node that stops has its record: it has registered, and no controller has deleted it since.
  abbrev pub Allowed : String → Event → Proc → Store HS HN → Type 0
  Allowed name (spawn start host) p s = FreshStart HS HN name start p
  Allowed name stop p s = (info : NodeInfo) × (HN.hget s.nodes name ≡ some info)
  Allowed name (children_exit pids) p s = Unit
  Allowed name run_removal p s = Unit
  Allowed name signal p s = Unit
  Allowed name (restart capacity queue) p s = Unit
  Allowed name purge p s = Unit

  pub record World : Type 0 where
    pub procs : String → Proc
    pub store : Store HS HN

  unfoldable pub step : String → Event → World → World
  step name event w =
      let r = handle name event (w.procs name) w.store in
      record { procs = λ m. if str_eq m name then r.0 else w.procs m; store = r.1 }

  -- A history: what happens to which node, in order.
  unfoldable pub run : List (String × Event) → World → World
  run [] w = w
  run ((name, event) ∷ history) w = run history (step name event w)

  -- Each event of the history is allowed where it happens.
  abbrev pub Orderly : List (String × Event) → World → Type 0
  Orderly [] w = Unit
  Orderly ((name, event) ∷ history) w =
      Allowed name event (w.procs name) w.store × Orderly history (step name event w)

  pub record Inv (w : World) : Type 0 where
    pub each : (name : String) → NodeInv HS HN name (w.procs name) w.store

  run_first-Good :
      (name : String) (jobs : List (ℕ × String)) (p : Proc) (s : Store HS HN)
      → p.removals ≡ jobs
      → NodeInv HS HN name p s
      → let r = run_first name jobs p s in Good HS HN name s r.0 r.1
  unfolding run_first
  run_first-Good name [] p s e v = (v, Frame-refl HS HN name s)
  run_first-Good name ((pid, host) ∷ rest) p s e v =
      let q : All (MatchesPid p.pids) ((pid, host) ∷ rest) =
        subst (All (MatchesPid p.pids)) e v.queued in
      remove_job-Good HS HN name pid host (record p { removals = rest }) s q.0
        (record {
          unique = v.unique;
          queued = q.1;
          registered = λ info f.
              let r = v.registered info f in
              record { owns = r.owns; counted = r.counted; bounded = r.bounded };
        })

  handle-Good :
      (name : String) (event : Event) (p : Proc) (s : Store HS HN)
      → Allowed name event p s
      → NodeInv HS HN name p s
      → let r = handle name event p s in Good HS HN name s r.0 r.1
  unfolding handle signaled_to_exit
  handle-Good name (spawn start host) p s a v = add-Good HS HN name start host p s a v
  handle-Good name (children_exit pids) p s a v =
      (sigchld_handler-NodeInv HS HN name pids p s v, Frame-refl HS HN name s)
  handle-Good name run_removal p s a v = run_first-Good name p.removals p s refl v
  handle-Good name signal p s a v = (
    record {
      unique = v.unique;
      queued = v.queued;
      registered = λ info f.
          let r = v.registered info f in
          record { owns = r.owns; counted = r.counted; bounded = r.bounded };
    },
    Frame-refl HS HN name s,
  )
  handle-Good name stop p s (info, found) v = cleanup-Good HS HN name info p s found v
  handle-Good name (restart capacity queue) p s a v = register-Good HS HN name capacity queue p s v
  handle-Good name purge p s a v = force_delete-Good HS HN name p s v

  step-Inv :
      (name : String) (event : Event) (w : World)
      → Allowed name event (w.procs name) w.store
      → Inv w
      → Inv (step name event w)
  unfolding step
  step-Inv name event w a v = record {
    each = λ m. elim (Bool-cases (str_eq m name)) [
      | inl e ↦ rw e (
          subst (λ k. NodeInv HS HN k (result w).0 (result w).1) (sym ((eq_iff m name).0 e)) good.0)
      | inr e ↦ rw e (
          NodeInv-Frame HS HN name m (w.procs m) w.store (result w).1
            (λ q. ground (arith, eq_iff m name)) good.1 (v.each m))
    ];
  }
    where
      result : World → Proc × Store HS HN
      result x = handle name event (x.procs name) x.store

      good : Good HS HN name w.store (result w).0 (result w).1
      good = handle-Good name event (w.procs name) w.store a (v.each name)

  run-Inv :
      (history : List (String × Event)) (w : World)
      → Orderly history w
      → Inv w
      → Inv (run history w)
  unfolding run
  run-Inv [] w o v = v
  run-Inv ((name, event) ∷ history) w (a, o) v =
      run-Inv history (step name event w) o (step-Inv name event w a v)

  -- Nothing has been registered yet, and no process has started.
  pub record IsInitial (w : World) : Type 0 where
    pub idle : (name : String) → w.procs name ≡ new_proc []
    pub unregistered : (name : String) → HN.hget w.store.nodes name ≡ none

  initial-Inv : (w : World) → IsInitial w → Inv w
  initial-Inv w i = record {
    each = λ name.
        subst (λ p. NodeInv HS HN name p w.store) (sym (i.idle name))
          (record {
            unique = tt;
            queued = tt;
            registered = λ info f. absurd (missing name info f (i.unregistered name));
          });
  }
    where
      missing :
          (name : String) (info : NodeInfo)
          → HN.hget w.store.nodes name ≡ some info
          → HN.hget w.store.nodes name ≡ none
          → ⊥
      missing name info f g = cc

  -- From a world with no registered node and no started process, through any history in which no
  -- child gets a pid that its node still knows and a node shuts down only while its record is there,
  -- not after a controller has deleted it: the record of a registered node counts exactly its pinned workers, stays
  -- within the capacity, and the node holds the lock of each of its hosts.
  pub run-Registered :
      (w : World) (history : List (String × Event)) (name : String) (info : NodeInfo)
      → IsInitial w
      → Orderly history w
      → let u = run history w in
        HN.hget u.store.nodes name ≡ some info → Registered HS HN name (u.procs name) u.store info
  run-Registered w history name info i o found =
      ((run-Inv history w o (initial-Inv w i)).each name).registered info found

  -- From a world with no registered node and no started process, through any history in which no
  -- child gets a pid that its node still knows and a node shuts down only while its record is there,
  -- not after a controller has deleted it: a host has at most one pinned worker on registered nodes.
  pub pinned_once :
      (w : World) (history : List (String × Event)) (a b host : String) (i j : NodeInfo) (p q : ℕ)
      → IsInitial w
      → Orderly history w
      → let u = run history w in
        HN.hget u.store.nodes a ≡ some i
        → HN.hget u.store.nodes b ≡ some j
        → In (p, host) (u.procs a).pids
        → In (q, host) (u.procs b).pids
        → (a ≡ b) × (p ≡ q)
  pinned_once w history a b host i j p q init o fa fb ma mb = (
    same,
    In-Unique p q host (u.procs a).pids ((inv.each a).unique) ma
        (subst (λ n. In (q, host) (u.procs n).pids) (sym same) mb),
  )
    where
      u : World
      u = run history w

      inv : Inv u
      inv = run-Inv history w o (initial-Inv w init)

      one_owner : HS.hget u.store.hosts host ≡ some a → HS.hget u.store.hosts host ≡ some b → a ≡ b
      one_owner x y = cc

      same : a ≡ b
      same =
          one_owner
            (All-at (λ e. HS.hget u.store.hosts e.1 ≡ some a) (p, host) _
              ((inv.each a).registered i fa).owns ma)
            (All-at (λ e. HS.hget u.store.hosts e.1 ≡ some b) (q, host) _
              ((inv.each b).registered j fb).owns mb)

  -- The clean-up of a node frees each host of its pid table, also one whose lock another node holds:
  -- it does not look at the owner.
  pub cleanup_frees_foreign_host :
      (name owner host : String) (pid : ℕ) (p : Proc) (s : Store HS HN)
      → name ≢ owner
      → In (pid, host) p.pids
      → HS.hget s.hosts host ≡ some owner
      → HS.hget (cleanup HS HN name p s).1.hosts host ≡ none
  unfolding cleanup
  cleanup_frees_foreign_host name owner host pid p s ne m owned =
      hget-hdel_all-In HS s.hosts (map (λ e. e.1) p.pids) host (listed p.pids m)
    where
      listed : (l : Pids) → In (pid, host) l → In host (map (λ e. e.1) l)
      listed [] z = z
      listed (e ∷ l) (inl z) = inl (ap (λ (x : ℕ × String). x.1) z)
      listed (e ∷ l) (inr z) = inr (listed l z)
