-- ===== src/Detached/Sweep.antt =====
-- What a sweep of the supervisor, and the clearing of the registry, leave behind.
use linux_net_x.Base.{
  ℕ, String, ◌≡◌, refl, sym, ap, ◌∙◌, subst, inl, inr, true, false, ◌&&◌, Option, none, some, List,
  [], ◌∷◌, str_eq, eq_iff, if◌then◌else◌, Bool-cases, Option-cases, arith, All, In, In-All,
}
use linux_net_x.Redis.{Hash}
use linux_net_x.Detached.{
  TaskMeta, Registry, get, list_all, unregister, unregister_each, clear_detached_tasks, Supervisor,
  is_purged, Push, no_push, trigger, push_due, push, purge, check_task, check_each, check_tasks,
  last_dispatch,
}

module _ (HT : Hash TaskMeta) where
  abbrev entry : String → Supervisor HT → Option TaskMeta
  entry k s = HT.hget s.registry.table k

  push-registry :
      (sent : Option ℕ) (k : String) (m : TaskMeta) (p : Push) (s : Supervisor HT)
      → (push HT sent k m p s).registry ≡ s.registry
  unfolding push
  push-registry sent k m no_push s = refl
  push-registry none k m (trigger w) s = refl
  push-registry (some t) k m (trigger w) s = refl

  module _ (now : ℕ) (sent : String → Option ℕ) where
    check_task-entry :
        (k j : String) (m : TaskMeta) (s : Supervisor HT)
        → entry j (check_task HT now sent k m s)
          ≡ (if str_eq k j && is_purged now m then none else entry j s)
    unfolding check_task purge unregister
    check_task-entry k j m s = elim (Bool-cases (is_purged now m)) [
      | inl e ↦ rw e (rw HT.hget-hdel (ground arith))
      | inr e ↦ rw e (
          ap (λ (r : Registry HT). HT.hget r.table j)
            (push-registry (sent k) k m (push_due now m (last_dispatch k s.dispatches)) s)
          ∙ ground arith)
    ]

    -- A task that is gone stays gone; one that is there goes if a round purges its key.
    check_each-keeps :
        (k : String) (m : TaskMeta) (tasks : List (String × TaskMeta)) (s : Supervisor HT)
        → All (λ e. e.0 ≡ k → is_purged now e.1 ≡ false) tasks
        → entry k (check_each HT now sent tasks s) ≡ entry k s
    unfolding check_each
    check_each-keeps k m [] s h = refl
    check_each-keeps k m ((j, w) ∷ tasks) s h =
        check_each-keeps k m tasks (check_task HT now sent j w s) h.1
        ∙ check_task-entry j k w s
        ∙ ground (arith, eq_iff j k, h.0)

    check_each-none :
        (k : String) (tasks : List (String × TaskMeta)) (s : Supervisor HT)
        → entry k s ≡ none
        → entry k (check_each HT now sent tasks s) ≡ none
    unfolding check_each
    check_each-none k [] s e = e
    check_each-none k ((j, w) ∷ tasks) s e =
        check_each-none k tasks (check_task HT now sent j w s)
          (check_task-entry j k w s ∙ ground arith)

    check_each-purges :
        (k : String) (m : TaskMeta) (tasks : List (String × TaskMeta)) (s : Supervisor HT)
        → In (k, m) tasks
        → is_purged now m ≡ true
        → entry k (check_each HT now sent tasks s) ≡ none
    unfolding check_each
    check_each-purges k m [] s i p = absurd i
    check_each-purges k m ((j, w) ∷ tasks) s (inl e) p =
        check_each-none k tasks (check_task HT now sent j w s) (
          check_task-entry j k w s
          ∙ ground (
            arith,
            eq_iff j k,
            ap (λ (x : String × TaskMeta). x.0) e,
            ap (λ (x : String × TaskMeta). x.1) e,
          ))
    check_each-purges k m ((j, w) ∷ tasks) s (inr i) p =
        check_each-purges k m tasks (check_task HT now sent j w s) i p

  -- The entry of a listing under a key is the one that is looked up.
  purged_of :
      (now : ℕ) (k : String) (m : TaskMeta) (x : String × TaskMeta) (s : Supervisor HT)
      → In x (list_all HT s.registry)
      → x.0 ≡ k
      → entry k s ≡ some m
      → is_purged now m ≡ false
      → is_purged now x.1 ≡ false
  unfolding list_all
  purged_of now k m x s i q e p =
      let f : HT.hget s.registry.table x.0 ≡ some x.1 =
        HT.hget_of_hscan s.registry.table x.0 x.1 i in
      let g : some m ≡ some x.1 = sym e ∙ ap (HT.hget s.registry.table) (sym q) ∙ f in
      let same : m ≡ x.1 = cc in subst (λ (w : TaskMeta). is_purged now w ≡ false) same p

  -- A sweep of the supervisor: a task whose metadata meets the purge test leaves the registry, and
  -- every other task keeps its metadata; what is dispatched on the way changes neither.
  pub check_tasks-entry :
      (now : ℕ) (sent : String → Option ℕ) (s : Supervisor HT) (k : String) (m : TaskMeta)
      → entry k s ≡ some m
      → entry k (check_tasks HT now sent s) ≡ (if is_purged now m then none else some m)
  unfolding check_tasks list_all
  check_tasks-entry now sent s k m e = elim (Bool-cases (is_purged now m)) [
    | inl p ↦ rw p (
        check_each-purges now sent k m (list_all HT s.registry) s
          (HT.hscan_of_hget s.registry.table k m e) p)
    | inr p ↦ rw p (
        check_each-keeps now sent k m (list_all HT s.registry) s (
          In-All (list_all HT s.registry) (λ x. x.0 ≡ k → is_purged now x.1 ≡ false)
            (λ x i q. purged_of now k m x s i q e p))
        ∙ e)
  ]

  unregister_each-keeps_none :
      (k : String) (tasks : List (String × TaskMeta)) (r : Registry HT)
      → get HT k r ≡ none
      → get HT k (unregister_each HT tasks r) ≡ none
  unfolding unregister_each get unregister
  unregister_each-keeps_none k [] r e = e
  unregister_each-keeps_none k ((j, w) ∷ tasks) r e =
      unregister_each-keeps_none k tasks (unregister HT j r) (rw HT.hget-hdel (ground arith))

  unregister_each-none :
      (k : String) (m : TaskMeta) (tasks : List (String × TaskMeta)) (r : Registry HT)
      → In (k, m) tasks
      → get HT k (unregister_each HT tasks r) ≡ none
  unfolding unregister_each get unregister
  unregister_each-none k m [] r i = absurd i
  unregister_each-none k m ((j, w) ∷ tasks) r (inl e) =
      unregister_each-keeps_none k tasks (unregister HT j r)
        (rw HT.hget-hdel (ground (arith, eq_iff j k, ap (λ (x : String × TaskMeta). x.0) e)))
  unregister_each-none k m ((j, w) ∷ tasks) r (inr i) =
      unregister_each-none k m tasks (unregister HT j r) i

  -- After the registry has been cleared, no task is found in it, whatever its identifier.
  pub clear_detached_tasks-get :
      (r : Registry HT) (k : String) → get HT k (clear_detached_tasks HT r).1 ≡ none
  unfolding clear_detached_tasks list_all get
  clear_detached_tasks-get r k = elim (Option-cases (get HT k r)) [
    | inl e ↦ unregister_each-keeps_none k (list_all HT r) r e
    | inr (m, e) ↦ unregister_each-none k m (list_all HT r) r (HT.hscan_of_hget r.table k m e)
  ]
