-- ===== src/Node/Pinning/Steps.antt =====
-- Each operation of a node keeps its invariant and stays in its frame.
use linux_net_x.Base.{
  ℕ, ◌+◌, ◌<◌, String, ◌≡◌, ◌≢◌, refl, sym, ◌∙◌, inl, inr, Bool, true, false, Option, none, some,
  List, [], ◌∷◌, ◌++◌, any_of, leb, str_eq, eq_iff, arith, Bool-cases, Option-cases, All, All-map,
  All-append, All-and, length, length-append, any_of-false,
}
use linux_net_x.Nodes.{NodeInfo}
use linux_net_x.Pids.{Pids, pid_get, NewPid, pid_set_of_new, Unique-snoc, pid_get-snoc}
use linux_net_x.Redis.{Hash, hget-hset_self, hget-hset_ne, hget-hdel_ne}
use linux_net_x.Node.{Proc, Store, add, after_start, remove, reap, sigchld_handler}
use linux_net_x.Node.Pinning.{NodeInv, Registered, Frame, Frame-refl, MatchesPid}

module _ (HS : Hash String) (HN : Hash NodeInfo) (name : String) where
  abbrev pub Good : Store HS HN → Proc → Store HS HN → Type 0
  Good s p' s' = NodeInv HS HN name p' s' × Frame HS HN name s s'

  -- A pid that the operating system may give to a new child: none that is known or still queued.
  abbrev pub FreshStart : Option ℕ → Proc → Type 0
  FreshStart none p = Unit
  FreshStart (some pid) p = NewPid pid p.pids × NewPid pid p.removals

  -- The store after a worker has been started.
  abbrev pinned : String → NodeInfo → Store HS HN → Store HS HN
  pinned host info s = record s {
    hosts = HS.hset s.hosts host name;
    nodes = HN.hset s.nodes name (record info { count = info.count + 1 });
  }

  pinned-Frame :
      (host : String) (info : NodeInfo) (s : Store HS HN)
      → HS.hget s.hosts host ≡ none
      → Frame HS HN name s (pinned host info s)
  pinned-Frame host info s free = record {
    nodes = λ m ne. hget-hset_ne HN s.nodes name m _ (λ e. ne (sym e));
    hosts = λ m h ne e. hget-hset_ne HS s.hosts host h name (λ q. not_free h m e q) ∙ e;
  }
    where
      not_free : (h m : String) → HS.hget s.hosts h ≡ some m → host ≡ h → ⊥
      not_free h m e q = cc

  pinned-NodeInv :
      (pid : ℕ) (host : String) (info : NodeInfo) (p : Proc) (s : Store HS HN)
      → NewPid pid p.pids
      → NewPid pid p.removals
      → All (λ e. e.1 ≢ host) p.pids
      → HN.hget s.nodes name ≡ some info
      → info.count < info.capacity
      → NodeInv HS HN name p s
      → NodeInv HS HN name (record p { pids = p.pids ++ (pid, host) ∷ [] }) (pinned host info s)
  pinned-NodeInv pid host info p s fresh unqueued other found below v = record {
    unique = Unique-snoc pid host p.pids fresh other v.unique;
    queued = matched p.removals unqueued v.queued;
    registered = λ i e. of_info i (sym (hget-hset_self HN s.nodes name _) ∙ e);
  }
    where
      matched :
          (l : List (ℕ × String))
          → NewPid pid l
          → All (MatchesPid p.pids) l
          → All (MatchesPid (p.pids ++ (pid, host) ∷ [])) l
      matched [] n h = tt
      matched (e ∷ l) n h = (rw (pid_get-snoc e.0 pid host p.pids n.0) h.0, matched l n.1 h.1)

      of_info :
          (i : NodeInfo)
          → some (record info { count = info.count + 1 }) ≡ some i
          → Registered HS HN name
              (record p { pids = p.pids ++ (pid, host) ∷ [] })
              (pinned host info s)
              i
      of_info i e =
          let r = v.registered info found in
          let grown : length (p.pids ++ (pid, host) ∷ []) ≡ length p.pids + 1 =
            length-append p.pids _ in
          record {
            owns =
                All-append _ p.pids _
                  (All-map _ _ p.pids
                    (λ x o. hget-hset_ne HS s.hosts host x.1 name (λ q. o.1 (sym q)) ∙ o.0)
                    (All-and _ _ p.pids r.owns other))
                  (hget-hset_self HS s.hosts host name, tt);
            counted = ground (arith, grown, r.counted);
            bounded = ground arith;
          }

  after_start-Good :
      (start : Option ℕ) (host : String) (info : NodeInfo) (p : Proc) (s : Store HS HN)
      → FreshStart start p
      → All (λ e. e.1 ≢ host) p.pids
      → HN.hget s.nodes name ≡ some info
      → info.count < info.capacity
      → HS.hget s.hosts host ≡ none
      → NodeInv HS HN name p s
      → let r = after_start HS HN name start host info (HS.hset s.hosts host name) p s in
        Good s r.1 r.2
  unfolding after_start
  after_start-Good none host info p s fresh other found below free v = (
    record {
      unique = v.unique;
      queued = v.queued;
      registered = λ i e.
          let r = v.registered i e in
          record {
            owns =
                All-map _ _ p.pids (λ x o. restored x.1 (λ q. o.1 (sym q)) ∙ o.0)
                  (All-and _ _ p.pids r.owns other);
            counted = r.counted;
            bounded = r.bounded;
          };
    },
    record { nodes = λ m ne. refl; hosts = λ m h ne e. restored h (λ q. not_free h m e q) ∙ e },
  )
    where
      restored :
          (h : String)
          → host ≢ h
          → HS.hget (HS.hdel (HS.hset s.hosts host name) host) h ≡ HS.hget s.hosts h
      restored h ne = hget-hdel_ne HS _ host h ne ∙ hget-hset_ne HS s.hosts host h name ne

      not_free : (h m : String) → HS.hget s.hosts h ≡ some m → host ≡ h → ⊥
      not_free h m e q = cc
  after_start-Good (some pid) host info p s fresh other found below free v =
      rw (pid_set_of_new pid host p.pids fresh.0) (
        pinned-NodeInv pid host info p s fresh.0 fresh.1 other found below v,
        pinned-Frame host info s free,
      )

  pub add-Good :
      (start : Option ℕ) (host : String) (p : Proc) (s : Store HS HN)
      → FreshStart start p
      → NodeInv HS HN name p s
      → let r = add HS HN name start host p s in Good s r.1 r.2
  unfolding add
  add-Good start host p s fresh v = elim (Bool-cases (any_of (λ e. str_eq e.1 host) p.pids)) [
    | inl known ↦ rw known (v, Frame-refl HS HN name s)
    | inr unknown ↦ rw unknown (elim (Option-cases (HN.hget s.nodes name)) [
      | inl gone ↦ rw (gone, add) (v, Frame-refl HS HN name s)
      | inr (info, found) ↦
          rw (found, add)
            (elim (Bool-cases (leb info.capacity info.count)) [
              | inl full ↦ rw (full, add) (v, Frame-refl HS HN name s)
              | inr below ↦
                  rw (below, add)
                    (elim (Option-cases (HS.hget s.hosts host)) [
                      | inl free ↦ rw (HS.hsetnx_free s.hosts host name free) (
                          after_start-Good start host info p s fresh (others p.pids unknown) found
                            (ground arith) free v)
                      | inr (owner, taken) ↦
                          rw (HS.hsetnx_taken s.hosts host name owner taken)
                            (v, Frame-refl HS HN name s)
                    ])
            ])
    ])
  ]
    where
      others : (l : Pids) → any_of (λ e. str_eq e.1 host) l ≡ false → All (λ e. e.1 ≢ host) l
      others l e = All-map _ _ l (λ x f q. ground (arith, eq_iff x.1 host)) (any_of-false _ l e)

  pub remove-NodeInv :
      (pid : ℕ) (p : Proc) (s : Store HS HN)
      → NodeInv HS HN name p s
      → NodeInv HS HN name (remove HS HN name pid p) s
  unfolding remove
  remove-NodeInv pid p s v = elim (Option-cases (pid_get pid p.pids)) [
    | inl e ↦ rw (e, remove) v
    | inr (host, e) ↦
        rw (e, remove)
          (record {
            unique = v.unique;
            queued = All-append _ p.removals _ v.queued (inr e, tt);
            registered = λ info f.
                let r = v.registered info f in
                record { owns = r.owns; counted = r.counted; bounded = r.bounded };
          })
  ]

  reap-NodeInv :
      (signaled : Bool) (pid : ℕ) (p : Proc) (s : Store HS HN)
      → NodeInv HS HN name p s
      → NodeInv HS HN name (reap HS HN name signaled pid p) s
  unfolding reap
  reap-NodeInv true pid p s v = v
  reap-NodeInv false pid p s v = remove-NodeInv pid p s v

  pub sigchld_handler-NodeInv :
      (pids : List ℕ) (p : Proc) (s : Store HS HN)
      → NodeInv HS HN name p s
      → NodeInv HS HN name (sigchld_handler HS HN name pids p) s
  unfolding sigchld_handler
  sigchld_handler-NodeInv [] p s v = v
  sigchld_handler-NodeInv (pid ∷ pids) p s v =
      sigchld_handler-NodeInv pids (reap HS HN name p.signaled pid p) s
        (reap-NodeInv p.signaled pid p s v)
