-- ===== src/Node/Pinning/Cleaning.antt =====
-- The operations that give hosts back keep the invariant of a node and stay in its frame.
use linux_net_x.Base.{
  ℕ, suc, ◌-◌, ◌≤◌, String, ◌≡◌, refl, sym, ◌∙◌, inl, inr, none, some, List, [], ◌∷◌, map, arith,
  Option-cases, All, All-map, All-at, All-and, length,
}
use linux_net_x.Nodes.{NodeInfo}
use linux_net_x.Pids.{
  Pids, pid_get, pid_pop, Unique, Unique-pid_pop, length-pid_pop, All-pid_pop, others_after_pop,
  In-of_pid_get, pid_get-pop,
}
use linux_net_x.Redis.{Hash, hget-hset_self, hget-hset_ne, hget-hdel_self, hget-hdel_ne}
use linux_net_x.Node.{Proc, Store, remove_job, cleanup, register, force_delete, new_proc}
use linux_net_x.Node.Pinning.{
  NodeInv, Registered, Frame-refl, MatchesPid, hosts_of-owned, hdel_all-frame,
}
use linux_net_x.Node.Pinning.Steps.{Good}

module _ (HS : Hash String) (HN : Hash NodeInfo) (name : String) where
  -- After a pop, what is queued still matches: an entry for the popped pid matches nothing.
  popped-queued :
      (pid : ℕ) (l : List (ℕ × String)) (pids : Pids)
      → Unique pids
      → All (MatchesPid pids) l
      → All (MatchesPid (pid_pop pid pids)) l
  popped-queued pid [] pids u h = tt
  popped-queued pid (e ∷ l) pids u h = (
    elim h.0 [
      | inl q ↦ inl (elim (pid_get-pop e.0 pid pids u) [ inl z ↦ z | inr z ↦ z ∙ q ])
      | inr q ↦ elim (pid_get-pop e.0 pid pids u) [ inl z ↦ inl z | inr z ↦ inr (z ∙ q) ]
    ],
    popped-queued pid l pids u h.1,
  )

  -- The job runs on an entry that matches its pid.
  pub remove_job-Good :
      (pid : ℕ) (host : String) (p : Proc) (s : Store HS HN)
      → MatchesPid p.pids (pid, host)
      → NodeInv HS HN name p s
      → let r = remove_job HS HN name pid host p s in Good HS HN name s r.0 r.1
  unfolding remove_job
  remove_job-Good pid host p s (inl e) v = rw (e, remove_job) (v, Frame-refl HS HN name s)
  remove_job-Good pid host p s (inr e) v =
      rw (e, remove_job)
        (elim (Option-cases (HN.hget s.nodes name)) [
          | inl gone ↦
              rw (gone, remove_job)
                (
                  record {
                    unique = Unique-pid_pop pid p.pids v.unique;
                    queued = popped-queued pid p.removals p.pids v.unique v.queued;
                    registered = λ info f. absurd (clash info f gone);
                  },
                  Frame-refl HS HN name s,
                )
          | inr (info, found) ↦
              let r = v.registered info found in
              let mine = All-at _ (pid, host) p.pids r.owns (In-of_pid_get pid p.pids host e) in
              let left = others_after_pop pid p.pids host v.unique e in
              rw (found, remove_job)
                (
                  record {
                    unique = Unique-pid_pop pid p.pids v.unique;
                    queued = popped-queued pid p.removals p.pids v.unique v.queued;
                    registered = λ i f.
                        let same = sym (hget-hset_self HN s.nodes name _) ∙ f in
                        let shorter = length-pid_pop pid p.pids host e in
                        record {
                          owns =
                              All-map _ _ (pid_pop pid p.pids)
                                (λ x o. hget-hdel_ne HS s.hosts host x.1 (λ q. o.1.1 (sym q)) ∙ o.0)
                                (All-and _ _ (pid_pop pid p.pids) (All-pid_pop _ pid p.pids r.owns)
                                  left);
                          counted = counts i info r.counted shorter same;
                          bounded = bounds i info r.bounded same;
                        };
                  },
                  record {
                    nodes = λ m ne. hget-hset_ne HN s.nodes name m _ (λ q. ne (sym q));
                    hosts =
                        λ m h ne q. hget-hdel_ne HS s.hosts host h (λ z. ne (two h m mine q z)) ∙ q;
                  },
                )
        ])
    where
      clash : (info : NodeInfo) → HN.hget s.nodes name ≡ some info → HN.hget s.nodes name ≡ none → ⊥
      clash info f g = cc

      two :
          (h m : String)
          → HS.hget s.hosts host ≡ some name
          → HS.hget s.hosts h ≡ some m
          → host ≡ h
          → m ≡ name
      two h m a b c = cc

      counts :
          (i info : NodeInfo)
          → info.count ≡ length p.pids
          → suc (length (pid_pop pid p.pids)) ≡ length p.pids
          → some (record info { count = info.count - 1 }) ≡ some i
          → i.count ≡ length (pid_pop pid p.pids)
      counts i info a b c = ground arith

      bounds :
          (i info : NodeInfo)
          → info.count ≤ info.capacity
          → some (record info { count = info.count - 1 }) ≡ some i
          → i.count ≤ i.capacity
      bounds i info a c = ground arith

  -- A registered node cleans up only what it owns.
  pub cleanup-Good :
      (info : NodeInfo) (p : Proc) (s : Store HS HN)
      → HN.hget s.nodes name ≡ some info
      → NodeInv HS HN name p s
      → let r = cleanup HS HN name p s in Good HS HN name s r.0 r.1
  unfolding cleanup
  cleanup-Good info p s found v = (
    record { unique = v.unique; queued = v.queued; registered = λ i f. absurd (gone i f) },
    record {
      nodes = λ m ne. hget-hdel_ne HN s.nodes name m (λ q. ne (sym q));
      hosts = λ m h ne q.
          hdel_all-frame HS HN name m h s.hosts (map (λ e. e.1) p.pids)
            (mapped p.pids (v.registered info found).owns) ne q;
    },
  )
    where
      gone : (i : NodeInfo) → HN.hget (HN.hdel s.nodes name) name ≡ some i → ⊥
      gone i f = cc (hget-hdel_self HN s.nodes name)

      mapped :
          (l : Pids)
          → All (λ e. HS.hget s.hosts e.1 ≡ some name) l
          → All (λ h. HS.hget s.hosts h ≡ some name) (map (λ e. e.1) l)
      mapped [] h = tt
      mapped (e ∷ l) h = (h.0, mapped l h.1)

  -- A new process of the node starts with no pids and an empty record.
  pub register-Good :
      (capacity : ℕ) (queue : String) (p : Proc) (s : Store HS HN)
      → NodeInv HS HN name p s
      → Good HS HN name s (new_proc p.removals) (register HS HN name capacity queue s)
  unfolding register pid_get
  register-Good capacity queue p s v = (
    record {
      unique = tt;
      queued = unmatched p.removals;
      registered = λ i f. fresh i (sym (hget-hset_self HN s.nodes name _) ∙ f);
    },
    record {
      nodes = λ m ne. hget-hset_ne HN s.nodes name m _ (λ q. ne (sym q));
      hosts =
          λ m h ne q. hdel_all-frame HS HN name m h s.hosts _ (hosts_of-owned HS HN name s) ne q;
    },
  )
    where
      unmatched : (l : List (ℕ × String)) → All (MatchesPid []) l
      unmatched [] = tt
      unmatched (e ∷ l) = (inl refl, unmatched l)

      fresh :
          (i : NodeInfo)
          → some (record { hostname = name; count = 0; capacity = capacity; queue = queue })
            ≡ some i
          → Registered HS HN name (new_proc p.removals) (register HS HN name capacity queue s) i
      fresh i e = record { owns = tt; counted = ground arith; bounded = ground arith }

  pub force_delete-Good :
      (p : Proc) (s : Store HS HN)
      → NodeInv HS HN name p s
      → Good HS HN name s p (force_delete HS HN name s)
  unfolding force_delete
  force_delete-Good p s v = (
    record { unique = v.unique; queued = v.queued; registered = λ i f. absurd (gone i f) },
    record {
      nodes = λ m ne. hget-hdel_ne HN s.nodes name m (λ q. ne (sym q));
      hosts =
          λ m h ne q. hdel_all-frame HS HN name m h s.hosts _ (hosts_of-owned HS HN name s) ne q;
    },
  )
    where
      gone : (i : NodeInfo) → HN.hget (HN.hdel s.nodes name) name ≡ some i → ⊥
      gone i f = cc (hget-hdel_self HN s.nodes name)
