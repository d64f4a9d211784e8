-- ===== src/Detached/Manage/Effects.antt =====
-- What the management of tasks does to the registry.
use linux_net_x.Base.{
  ℕ, String, ◌≡◌, ◌≢◌, refl, sym, ap, ◌∙◌, ◌⊎◌, inl, inr, Bool, true, false, ◌&&◌, not, Option,
  none, some, List, str_eq, eq_iff, eq_refl, if◌then◌else◌, arith, Bool-cases, Option-cases,
}
use linux_net_x.Redis.{Hash}
use linux_net_x.Detached.{running, completed, TaskMeta, Registry, register, get, same_status}
use linux_net_x.Detached.Manage.{
  DriverResult, or_else, Action, query, kill, other, Device, queried, tagged, synced,
  register_present, after_query, run_action, is_query, manage_found, manage, sync_entry,
  sync_tagged, callback_sync, query_sync,
}

module _ (HT : Hash TaskMeta) (mongodb_enabled : Bool) where
  abbrev pub find : String → Registry HT → Option TaskMeta
  find = get HT

  pub find-register :
      (k j : String) (m : TaskMeta) (r : Registry HT)
      → find j (register HT mongodb_enabled k m r) ≡ (if str_eq k j then some m else find j r)
  unfolding get register
  find-register k j m r = HT.hget-hset r.table k j m

  -- The entry of `j` in `s` is that in `r`, unless `j` is the task `k` and there in `r`.
  abbrev pub OnlyPresent : String → String → Registry HT → Registry HT → Type 0
  OnlyPresent k j r s = (k ≢ j) ⊎ (find j r ≡ none) → find j s ≡ find j r

  register_present-OnlyPresent :
      (k j : String) (m : TaskMeta) (r : Registry HT)
      → OnlyPresent k j r (register_present HT mongodb_enabled k m r)
  unfolding register_present
  register_present-OnlyPresent k j m r h = elim (Option-cases (find k r)) [
    | inl e ↦ rw (e, register_present) refl
    | inr (n, e) ↦ rw (e, register_present) (find-register k j m r ∙ differ h e)
  ]
    where
      differ :
          {n : TaskMeta}
          → (k ≢ j) ⊎ (find j r ≡ none)
          → find k r ≡ some n
          → (if str_eq k j then some m else find j r) ≡ find j r
      differ (inl ne) e = ground (arith, eq_iff k j)
      differ (inr absent) e = elim (Bool-cases (str_eq k j)) [
        | inl q ↦ let same : k ≡ j = (eq_iff k j).0 q in cc (ap (λ x. find x r) same)
        | inr q ↦ rw q refl
      ]

  run_action-OnlyPresent :
      (device : Device) (k j : String) (now : ℕ) (action : Action) (offset : Option ℕ)
      (m : TaskMeta) (r : Registry HT)
      → OnlyPresent k j r (run_action HT mongodb_enabled device k now action offset m r).1
  unfolding run_action after_query
  run_action-OnlyPresent device k j now query offset m r h =
      elim (Option-cases (device.read_logs (or_else (or_else 0 m.last_offset) offset))) [
        | inl e ↦ rw (e, after_query) refl
        | inr (results, e) ↦
            rw (e, after_query)
              (register_present-OnlyPresent k j
                (queried now (or_else (or_else 0 m.last_offset) offset) results m) r h)
      ]
  run_action-OnlyPresent device k j now kill offset m r h = refl
  run_action-OnlyPresent device k j now other offset m r h = refl

  manage_found-OnlyPresent :
      (device : Device) (k j : String) (now : ℕ) (action : Action) (offset : Option ℕ)
      (m : TaskMeta) (r : Registry HT)
      → OnlyPresent k j r (manage_found HT mongodb_enabled device k now action offset m r).1
  unfolding manage_found
  manage_found-OnlyPresent device k j now action offset m r h =
      elim (Bool-cases (is_query HT mongodb_enabled action && same_status m.status completed)) [
        | inl e ↦ rw e refl
        | inr e ↦ rw e (elim (Bool-cases device.connects) [
          | inl f ↦ rw f (run_action-OnlyPresent device k j now action offset m r h)
          | inr f ↦ rw f refl
        ])
      ]

  -- The management of a task changes no entry but that of its task, and brings no task back: an
  -- entry that is gone when the driver has answered stays gone.
  pub manage-OnlyPresent :
      (device : Device) (k j : String) (now : ℕ) (action : Action) (offset : Option ℕ)
      (before r : Registry HT)
      → (k ≢ j) ⊎ (find j r ≡ none)
      → find j (manage HT mongodb_enabled device k now action offset before r).1 ≡ find j r
  unfolding manage
  manage-OnlyPresent device k j now action offset before r h = elim (Option-cases (find k before)) [
    | inl e ↦ rw (e, manage) refl
    | inr (m, e) ↦ rw (e, manage) (manage_found-OnlyPresent device k j now action offset m r h)
  ]

  -- A result whose two flags agree, as those of a log query do, has the same effect on the registry
  -- by the job's callback as by a synchronous query.
  pub callback_sync-query_sync :
      (now : ℕ) (results : List DriverResult) (k : String) (res : DriverResult) (alive : Bool)
      (r : Registry HT)
      → tagged results ≡ some (k, res)
      → res.is_running ≡ some alive
      → res.completed_flag ≡ some (not alive)
      → callback_sync HT mongodb_enabled now results r ≡ query_sync HT mongodb_enabled now results r
  unfolding callback_sync query_sync sync_tagged
  callback_sync-query_sync now results k res alive r e f g =
      ap (λ t. sync_tagged HT mongodb_enabled (λ x. not (or_else false x.completed_flag)) now t r) e
      ∙ ap (λ (b : Bool). sync_entry HT mongodb_enabled b now k res (find k r) r)
          (ap (λ (b : Option Bool). not (or_else false b)) g
            ∙ twice alive
            ∙ sym (ap (or_else true) f))
      ∙ sym (ap (λ t. sync_tagged HT mongodb_enabled (λ x. or_else true x.is_running) now t r) e)
    where
      twice : (b : Bool) → not (not b) ≡ b
      twice true = refl
      twice false = refl

  -- A result with no `completed` flag, such as that of a launch, makes the job's callback mark its
  -- task as running, also where the result says that the task does not run.
  pub callback_of_launch :
      (now : ℕ) (results : List DriverResult) (k : String) (res : DriverResult) (m : TaskMeta)
      (r : Registry HT)
      → tagged results ≡ some (k, res)
      → res.completed_flag ≡ none
      → find k r ≡ some m
      → (m' : TaskMeta) × (find k (callback_sync HT mongodb_enabled now results r) ≡ some m')
        × (m'.status ≡ running)
  unfolding callback_sync sync_tagged sync_entry synced
  callback_of_launch now results k res m r e f g = (
    synced now true res m,
    ap (find k) (
          ap
            (λ t.
              sync_tagged HT mongodb_enabled (λ x. not (or_else false x.completed_flag)) now t r)
            e
          ∙ ap (λ (b : Bool). sync_entry HT mongodb_enabled b now k res (find k r) r)
              (ap (λ (b : Option Bool). not (or_else false b)) f)
          ∙ ap (λ o. sync_entry HT mongodb_enabled true now k res o r) g)
        ∙ find-register k k (synced now true res m) r
        ∙ ground (arith, eq_refl k),
    refl,
  )
