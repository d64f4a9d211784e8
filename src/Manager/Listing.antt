-- ===== src/Manager/Listing.antt =====
-- The nodes that `get_all_nodes` and `_get_assigned_node_for_host` return are registered.
use linux_net_x.Base.{
  String, ◌≡◌, refl, ap, ◌∙◌, ◌⊎◌, inl, inr, none, some, List, [], ◌∷◌, map, In, str_eq, eq_iff,
  Bool-cases, Option-cases,
}
use linux_net_x.Nodes.{NodeInfo}
use linux_net_x.Redis.{Hash}
use linux_net_x.Node.{Store}
use linux_net_x.Manager.{assigned_node, dict_put, collect, get_all_nodes}

module _ (HS : Hash String) (HN : Hash NodeInfo) where
  In-dict_put :
      (k : String) (v : NodeInfo) (d : List (String × NodeInfo)) (e : String × NodeInfo)
      → In e (dict_put HS HN k v d)
      → (e ≡ (k, v)) ⊎ In e d
  unfolding dict_put
  In-dict_put k v [] e (inl p) = inl p
  In-dict_put k v [] e (inr m) = absurd m
  In-dict_put k v ((j, w) ∷ d) e m = elim (Bool-cases (str_eq j k)) [
    | inl q ↦ elim (split ((j, v) ∷ d) refl (rw (q, dict_put) at m)) [
      | inl p ↦ inl (p ∙ ap (λ i. (i, v)) ((eq_iff j k).0 q))
      | inr n ↦ inr (inr n)
    ]
    | inr q ↦ elim (split ((j, w) ∷ dict_put HS HN k v d) refl (rw (q, dict_put) at m)) [
      | inl p ↦ inr (inl p)
      | inr n ↦ elim (In-dict_put k v d e n) [ inl p ↦ inl p | inr n' ↦ inr (inr n') ]
    ]
  ]
    where
      split :
          {x : String × NodeInfo} {xs : List (String × NodeInfo)} (l : List (String × NodeInfo))
          → l ≡ x ∷ xs
          → In e (x ∷ xs)
          → (e ≡ x) ⊎ In e xs
      split l p n = n

  In-collect :
      (l d : List (String × NodeInfo)) (e : String × NodeInfo)
      → In e (collect HS HN d l)
      → In e d ⊎ In e l
  unfolding collect
  In-collect [] d e m = inl m
  In-collect ((k, v) ∷ l) d e m = elim (In-collect l (dict_put HS HN k v d) e m) [
    | inl n ↦ elim (In-dict_put k v d e n) [ inl p ↦ inr (inl p) | inr n' ↦ inl n' ]
    | inr n ↦ inr (inr n)
  ]

  In-of_values :
      (l : List (String × NodeInfo)) (n : NodeInfo)
      → In n (map (λ e. e.1) l)
      → (k : String) × In (k, n) l
  In-of_values [] n m = absurd m
  In-of_values ((k, v) ∷ l) n (inl p) = (k, inl (ap (λ x. (k, x)) p))
  In-of_values ((k, v) ∷ l) n (inr m) = let (j, i) = In-of_values l n m in (j, inr i)

  module _ (s : Store HS HN) where
    -- A listed node is registered under some name.
    pub get_all_nodes-registered :
        (n : NodeInfo) → In n (get_all_nodes HS HN s) → (k : String) × (HN.hget s.nodes k ≡ some n)
    unfolding get_all_nodes
    get_all_nodes-registered n m =
        let (k, i) = In-of_values (collect HS HN [] (HN.hscan s.nodes)) n m in
        elim (In-collect (HN.hscan s.nodes) [] (k, n) i) [
          | inl z ↦ absurd z
          | inr z ↦ (k, HN.hget_of_hscan s.nodes k n z)
        ]

    -- So is the node that a host is assigned to.
    pub assigned_node-registered :
        (host : String) (n : NodeInfo)
        → assigned_node HS HN s host ≡ some n
        → (k : String) × (HN.hget s.nodes k ≡ some n)
    unfolding assigned_node
    assigned_node-registered host n e = elim (Option-cases (HS.hget s.hosts host)) [
      | inl f ↦ let e' : none ≡ some n = rw (f, assigned_node) at e in cc
      | inr (k, f) ↦ (k, rw (f, assigned_node) at e)
    ]
