-- ===== src/Manager/Dispatch/Finding.antt =====
-- The search of a dispatch for a node, and what it does to the store.
use linux_net_x.Base.{
  ℕ, zero, suc, String, ◌≡◌, ◌≢◌, refl, sym, ap, ◌∙◌, ◌⊎◌, inl, inr, Bool, true, false, Option,
  none, some, List, In, Bool-cases, Option-cases, str_eq, eq_iff,
}
use linux_net_x.Nodes.{NodeInfo, Result, ok, raise}
use linux_net_x.Redis.{Hash, hget-hdel_self, hget-hdel_ne}
use linux_net_x.Node.{Store, force_delete}
use linux_net_x.Node.Pinning.{hosts_of-owned, hdel_all-frame}
use linux_net_x.Manager.{Config, WorkerInfo, check_worker_alive, assigned_node, get_all_nodes}
use linux_net_x.Manager.Listing.{get_all_nodes-registered, assigned_node-registered}
use linux_net_x.Manager.Dispatch.{find_node, seek_node}

module _ (HS : Hash String) (HN : Hash NodeInfo) (c : Config) (workers : String → List WorkerInfo)
    (select : List NodeInfo → String → Result NodeInfo) where
  abbrev pub alive : String → Bool
  alive = check_worker_alive c workers

  -- The node that the host is assigned to or, where it has none, the one that the scheduler selects
  -- from all nodes.
  abbrev pub Finds : String → Store HS HN → NodeInfo → Type 0
  Finds host s n =
      (assigned_node HS HN s host ≡ some n)
      ⊎ ((assigned_node HS HN s host ≡ none) × (select (get_all_nodes HS HN s) host ≡ ok n))

  find_node-Finds :
      (host : String) (s : Store HS HN) (n : NodeInfo)
      → find_node HS HN c workers select host s ≡ some n
      → Finds host s n
  unfolding find_node
  find_node-Finds host s n e = elim (Option-cases (assigned_node HS HN s host)) [
    | inr (m, f) ↦ inl (f ∙ (rw (f, find_node) at e))
    | inl f ↦ inr (f, selected (select (get_all_nodes HS HN s) host) (rw (f, find_node) at e))
  ]
    where
      selected :
          (r : Result NodeInfo)
          → (elim r as (λ _. Option NodeInfo) [ ok n ↦ some n | raise e ↦ none ]) ≡ some n
          → r ≡ ok n
      selected (ok m) h = let p : m ≡ n = cc in ap ok p
      selected (raise e) h = cc

  -- From one store to another by forced deletions of nodes that were found dead, in turn.
  pub data Purged (host : String) : Store HS HN → Store HS HN → Type 0 where
    unchanged : (s : Store HS HN) → Purged host s s
    purged :
        (s t : Store HS HN) (n : NodeInfo)
        → Finds host s n
        → alive n.queue ≡ false
        → Purged host (force_delete HS HN n.hostname s) t
        → Purged host s t

  -- The search ends with no node, or with one that is found at the end and has a live worker.
  pub record Sought (host : String) (s : Store HS HN) (r : Option NodeInfo × Store HS HN)
      : Type 0 where
    pub purges : Purged host s r.1
    pub ends :
        (r.0 ≡ none) ⊎ ((n : NodeInfo) × (r.0 ≡ some n) × (alive n.queue ≡ true) × Finds host r.1 n)

  pub seek_node-Sought :
      (left : ℕ) (host : String) (s : Store HS HN)
      → Sought host s (seek_node HS HN c workers select left host s)
  unfolding seek_node
  seek_node-Sought zero host s = record { purges = unchanged s; ends = inl refl }
  seek_node-Sought (suc left) host s =
      elim (Option-cases (find_node HS HN c workers select host s)) [
        | inl e ↦ rw (e, seek_node) (seek_node-Sought left host s)
        | inr (n, e) ↦
            rw (e, seek_node)
              (elim (Bool-cases (alive n.queue)) [
                | inl up ↦
                    rw (up, seek_node)
                      (record {
                        purges = unchanged s;
                        ends = inr (n, refl, up, find_node-Finds host s n e);
                      })
                | inr down ↦
                    let rest = seek_node-Sought left host (force_delete HS HN n.hostname s) in
                    rw (down, seek_node)
                      (record {
                        purges = purged s _ n (find_node-Finds host s n e) down rest.purges;
                        ends = rest.ends;
                      })
              ])
      ]

  -- A record stands under its own name.
  abbrev pub Keyed : Store HS HN → Type 0
  Keyed s = (k : String) (n : NodeInfo) → HN.hget s.nodes k ≡ some n → n.hostname ≡ k

  -- The scheduler selects among the nodes that it is given.
  abbrev pub SelectsListed : Type 0
  SelectsListed =
      (nodes : List NodeInfo) (host : String) (n : NodeInfo) → select nodes host ≡ ok n → In n nodes

  -- What a node finds under its name, and the hosts that it owns, are those of another store.
  pub record IsUntouched (m : String) (s t : Store HS HN) : Type 0 where
    pub nodes : HN.hget t.nodes m ≡ HN.hget s.nodes m
    pub hosts : (h : String) → HS.hget s.hosts h ≡ some m → HS.hget t.hosts h ≡ some m

  pub IsUntouched-refl : (m : String) (s : Store HS HN) → IsUntouched m s s
  IsUntouched-refl m s = record { nodes = refl; hosts = λ h e. e }

  force_delete-IsUntouched :
      (name m : String) (s : Store HS HN) → name ≢ m → IsUntouched m s (force_delete HS HN name s)
  unfolding force_delete
  force_delete-IsUntouched name m s ne = record {
    nodes = hget-hdel_ne HN s.nodes name m ne;
    hosts = λ h e.
        hdel_all-frame HS HN name m h s.hosts _ (hosts_of-owned HS HN name s) (λ q. ne (sym q)) e;
  }

  force_delete-Keyed :
      (name : String) (s : Store HS HN) → Keyed s → Keyed (force_delete HS HN name s)
  unfolding force_delete
  force_delete-Keyed name s h k n e = elim (Bool-cases (str_eq name k)) [
    | inl q ↦ absurd (gone ((eq_iff name k).0 q))
    | inr q ↦ h k n (sym (hget-hdel_ne HN s.nodes name k (λ p. cc ((eq_iff name k).1 p))) ∙ e)
  ]
    where
      gone : name ≡ k → ⊥
      gone p =
          let f : HN.hget (HN.hdel s.nodes name) name ≡ some n = ap (HN.hget _) p ∙ e in
          cc (hget-hdel_self HN s.nodes name)

  Finds-registered :
      (host : String) (s : Store HS HN) (n : NodeInfo)
      → SelectsListed
      → Finds host s n
      → (k : String) × (HN.hget s.nodes k ≡ some n)
  Finds-registered host s n l (inl e) = assigned_node-registered HS HN s host n e
  Finds-registered host s n l (inr (e, f)) =
      get_all_nodes-registered HS HN s n (l (get_all_nodes HS HN s) host n f)

  -- A registered node with a live worker is none of those that are deleted.
  pub Purged-IsUntouched :
      {host m : String} {s t : Store HS HN} (info : NodeInfo)
      → SelectsListed
      → Keyed s
      → HN.hget s.nodes m ≡ some info
      → alive info.queue ≡ true
      → Purged host s t
      → IsUntouched m s t
  Purged-IsUntouched info l keyed e up (unchanged s) = IsUntouched-refl _ s
  Purged-IsUntouched {host} {m} info l keyed e up (purged s t n f down rest) =
      let (k, g) = Finds-registered host s n l f in
      let ne : n.hostname ≢ m = λ q. other k g (sym (keyed k n g) ∙ q) in
      let first = force_delete-IsUntouched n.hostname m s ne in
      let later =
        Purged-IsUntouched info l (force_delete-Keyed n.hostname s keyed) (first.nodes ∙ e) up
          rest in
      record { nodes = later.nodes ∙ first.nodes; hosts = λ h q. later.hosts h (first.hosts h q) }
    where
      other : (k : String) → HN.hget s.nodes k ≡ some n → k ≡ m → ⊥
      other k g q =
          let same : some n ≡ some info = sym g ∙ ap (HN.hget s.nodes) q ∙ e in
          let same' : n ≡ info = cc in cc (ap (λ (x : NodeInfo). alive x.queue) same')
