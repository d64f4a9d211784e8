-- ===== src/Node/Pinning.antt =====
-- Which node owns which host: the invariant of one node, and what a step of it leaves to the others.
pub mod Steps
pub mod Cleaning
pub mod World
use linux_net_x.Base.{
  ℕ, zero, suc, ◌+◌, ◌-◌, ◌≤◌, String, ◌≡◌, ◌≢◌, refl, sym, ap, ◌∙◌, subst, ◌⊎◌, inl, inr, Bool,
  true, false, Option, none, some, List, [], ◌∷◌, ◌++◌, map, keep, any_of, leb, str_eq, eq_iff,
  eq_refl, if◌then◌else◌, arith, Bool-cases, Option-cases, All, All-map, All-append, In, All-keep,
  All-keep_of_All, In-All, All-and, length, length-append,
}
use linux_net_x.Nodes.{NodeInfo}
use linux_net_x.Pids.{Pids, pid_get, Unique, NewPid}
use linux_net_x.Redis.{Hash, hdel_all, hget-hdel_all_ne}
use linux_net_x.Node.{Proc, Store, hosts_of}

abbrev pub MatchesPid : Pids → ℕ × String → Type 0
MatchesPid pids e = (pid_get e.0 pids ≡ none) ⊎ (pid_get e.0 pids ≡ some e.1)

module _ (HS : Hash String) (HN : Hash NodeInfo) where
  -- A registered node holds the lock of each of its hosts, and its count is right and in bounds.
  pub record Registered (name : String) (p : Proc) (s : Store HS HN) (info : NodeInfo)
      : Type 0 where
    pub owns : All (λ e. HS.hget s.hosts e.1 ≡ some name) p.pids
    pub counted : info.count ≡ length p.pids
    pub bounded : info.count ≤ info.capacity

  pub record NodeInv (name : String) (p : Proc) (s : Store HS HN) : Type 0 where
    pub unique : Unique p.pids
    -- A clean-up job that waits is for the host that its pid still stands for, if for any.
    pub queued : All (MatchesPid p.pids) p.removals
    pub registered : (info : NodeInfo) → HN.hget s.nodes name ≡ some info → Registered name p s info

  -- A step of `name` keeps the records of the other nodes and the hosts that these own.
  pub record Frame (name : String) (s s' : Store HS HN) : Type 0 where
    pub nodes : (m : String) → m ≢ name → HN.hget s'.nodes m ≡ HN.hget s.nodes m
    pub hosts : (m h : String) → m ≢ name → HS.hget s.hosts h ≡ some m → HS.hget s'.hosts h ≡ some m

  pub Frame-refl : (name : String) (s : Store HS HN) → Frame name s s
  Frame-refl name s = record { nodes = λ m ne. refl; hosts = λ m h ne e. e }

  pub NodeInv-Frame :
      (name m : String) (p : Proc) (s s' : Store HS HN)
      → m ≢ name
      → Frame name s s'
      → NodeInv m p s
      → NodeInv m p s'
  NodeInv-Frame name m p s s' ne f v = record {
    unique = v.unique;
    queued = v.queued;
    registered = λ info e.
        let r = v.registered info (sym (f.nodes m ne) ∙ e) in
        record {
          owns = All-map _ _ p.pids (λ x o. f.hosts m x.1 ne o) r.owns;
          counted = r.counted;
          bounded = r.bounded;
        };
  }

  -- What the scan finds for a node is owned by that node.
  pub hosts_of-owned :
      (name : String) (s : Store HS HN)
      → All (λ h. HS.hget s.hosts h ≡ some name) (hosts_of HS HN name s)
  unfolding hosts_of
  hosts_of-owned name s = All-of-map (keep (λ e. str_eq e.1 name) (HS.hscan s.hosts)) (
      All-map _ _ (keep (λ e. str_eq e.1 name) (HS.hscan s.hosts))
        (λ e q. HS.hget_of_hscan s.hosts e.0 e.1 q.1 ∙ ap some ((eq_iff e.1 name).0 q.0))
        (All-and _ _ (keep (λ e. str_eq e.1 name) (HS.hscan s.hosts))
          (All-keep (λ e. str_eq e.1 name) (HS.hscan s.hosts))
          (All-keep_of_All (λ e. In (e.0, e.1) (HS.hscan s.hosts)) (λ e. str_eq e.1 name)
            (HS.hscan s.hosts) (In-All (HS.hscan s.hosts) _ (λ e m. m)))))
    where
      All-of-map :
          (l : List (String × String))
          → All (λ e. HS.hget s.hosts e.0 ≡ some name) l
          → All (λ h. HS.hget s.hosts h ≡ some name) (map (λ e. e.0) l)
      All-of-map [] h = tt
      All-of-map (e ∷ l) h = (h.0, All-of-map l h.1)

  -- Deleting hosts that `name` owns is no concern of another node.
  pub hdel_all-frame :
      (name m h : String) (t : HS.Table) (ks : List String)
      → All (λ k. HS.hget t k ≡ some name) ks
      → m ≢ name
      → HS.hget t h ≡ some m
      → HS.hget (hdel_all HS t ks) h ≡ some m
  hdel_all-frame name m h t ks owned ne e =
      hget-hdel_all_ne HS t ks h (All-map _ _ ks (λ k o q. ne (other k o q)) owned) ∙ e
    where
      other : (k : String) → HS.hget t k ≡ some name → k ≡ h → m ≡ name
      other k o q = cc
