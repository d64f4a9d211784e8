-- ===== src/Napalm/Outcomes.antt =====
-- What a configuration commits, and what commands answer.
use linux_net_x.Base.{
  ◌+◌, String, ◌≡◌, ◌≢◌, ◌∙◌, refl, sym, ap, inl, inr, ◌⊎◌, Bool, true, false, none, some, List, [],
  ◌∷◌, ◌++◌, map, str_eq, In, All-at, if◌then◌else◌, Bool-cases, Option-cases,
}
use linux_net_x.Nodes.{ok}
use linux_net_x.Rpc.Execute.{CommandResult, join_lines, Try, returned, raised}
use linux_net_x.Napalm.{
  NetworkDriver, NapalmState, DriverCall, open_session, compare_config, discard_config,
  commit_config, load_merge_candidate, call, call_of, command_result, send_each, after_open, send,
  applied, apply_or_discard, after_load, load, configure, effect_of, device_types, type_in,
  commit_candidate, convert_device_type,
}

module _ (N : NetworkDriver) where
  command_of : (cmd : String) (x : Try String) → (command_result N cmd x).command ≡ cmd
  unfolding command_result
  command_of cmd (returned out) = refl
  command_of cmd (raised message) = refl

  -- The results of commands: one for each, in order.
  send_each-command :
      (cmds : List String) (s : NapalmState) → map (λ r. r.command) (send_each N cmds s).0 ≡ cmds
  unfolding send_each command_result
  send_each-command [] s = refl
  send_each-command (cmd ∷ cmds) s =
      let x = call N (call_of N cmd) s in cc (command_of cmd x.0, send_each-command cmds x.1)

  -- Whichever commands fail, commands on a session that opens have one result each, in order.
  pub send-command :
      (cmds : List String) (s : NapalmState) (out : String)
      → (call N open_session s).0 ≡ returned out
      → map (λ r. r.command) (send N cmds s).0 ≡ cmds
  unfolding send after_open
  send-command [] s out h = refl
  send-command (cmd ∷ cmds) s out h = opened (call N open_session s) h
    where
      opened :
          (x : Try String × NapalmState)
          → x.0 ≡ returned out
          → map (λ r. r.command) (after_open N (cmd ∷ cmds) x).0 ≡ cmd ∷ cmds
      opened (returned o, s') e = send_each-command (cmd ∷ cmds) s'
      opened (raised message, s') e = cc

  -- What a configuration reports and what it has committed. Where it succeeds: its lines, or nothing
  -- in a dry run, and no candidate is left. Where it fails: nothing, unless the call that raised is
  -- the commit itself, which only a configuration that is no dry run makes, with its lines as the
  -- candidate; then the device is as that call leaves it.
  pub data Commits (dry_run : Bool) (text : String) (s : NapalmState) (r : CommandResult)
      (s' : NapalmState) : Type 0 where
    succeeded :
        r.command ≡ text
        → r.exit_status ≡ 0
        → s'.committed ≡ (if dry_run then s.committed else s.committed ++ text ∷ [])
        → s'.candidate ≡ none
        → Commits dry_run text s r s'
    failed :
        r.command ≡ text
        → r.exit_status ≡ 1
        → s'.committed ≡ s.committed
        → Commits dry_run text s r s'
    commit_failed :
        (s1 : NapalmState)
        → dry_run ≡ false
        → r.command ≡ text
        → r.exit_status ≡ 1
        → N.raises s1 commit_config ≡ some r.stderr
        → s1.committed ≡ s.committed
        → s1.candidate ≡ some text
        → s' ≡ N.failure_effect commit_config (record s1 { calls = s1.calls + 1 })
        → Commits dry_run text s r s'

  -- A call that raises leaves the device as it happens, and one that does not has its effect.
  data Calls (c : DriverCall) (s : NapalmState) : Try String × NapalmState → Type 0 where
    went_wrong :
        (message : String)
        → N.raises s c ≡ some message
        → Calls c s (raised message, N.failure_effect c (record s { calls = s.calls + 1 }))
    went_well :
        (out : String) → Calls c s (returned out, effect_of N c (record s { calls = s.calls + 1 }))

  call-Calls : (c : DriverCall) (s : NapalmState) → Calls c s (call N c s)
  unfolding call
  call-Calls c s = elim (Option-cases (N.raises s c)) [
    | inl e ↦ rw (e, call) (went_well (N.output s c))
    | inr (m, e) ↦ rw (e, call) (went_wrong m e)
  ]

  candidate_committed :
      (s : NapalmState) (text : String)
      → s.candidate ≡ some text
      → ((commit_candidate s).committed ≡ s.committed ++ text ∷ [])
        × ((commit_candidate s).candidate ≡ none)
  candidate_committed s text k = rw (k, commit_candidate) (refl, refl)

  -- The calls other than the commit leave what runs on the device, also where they raise: napalm
  -- keeps a candidate apart until it is committed.
  abbrev pub OnlyCommits : Type 0
  OnlyCommits =
      (c : DriverCall) (s : NapalmState)
      → c ≢ commit_config
      → (N.failure_effect c s).committed ≡ s.committed

  is_commit : DriverCall → Bool
  is_commit commit_config = true
  is_commit _ = false

  differs : (c : DriverCall) → is_commit c ≡ false → c ≢ commit_config
  unfolding is_commit
  differs c h e = let f : is_commit c ≡ true = ap is_commit e in cc

  module _ (separate : OnlyCommits) (dry_run : Bool) (text : String) (s : NapalmState) where
    abbrev Result : CommandResult × NapalmState → Type 0
    Result r = Commits dry_run text s r.0 r.1

    discard-Commits :
        (diff : String) (s1 : NapalmState) (x : Try String × NapalmState)
        → dry_run ≡ true
        → s1.committed ≡ s.committed
        → Calls discard_config s1 x
        → Result (applied N text diff x)
    unfolding applied effect_of is_commit
    discard-Commits diff s1 x d h (went_wrong m e) =
        failed refl refl (separate discard_config _ (differs discard_config refl) ∙ h)
    discard-Commits diff s1 x d h (went_well out) = succeeded refl refl (rw d h) refl

    commit-Commits :
        (diff : String) (s1 : NapalmState) (x : Try String × NapalmState)
        → dry_run ≡ false
        → s1.committed ≡ s.committed
        → s1.candidate ≡ some text
        → Calls commit_config s1 x
        → Result (applied N text diff x)
    unfolding applied effect_of
    commit-Commits diff s1 x d h k (went_wrong m e) = commit_failed s1 d refl refl e h k refl
    commit-Commits diff s1 x d h k (went_well out) =
        let (a, b) = candidate_committed (record s1 { calls = s1.calls + 1 }) text k in
        succeeded refl refl (rw d (a ∙ ap (λ l. l ++ text ∷ []) h)) b

    compared :
        (s1 : NapalmState) (x : Try String × NapalmState)
        → s1.committed ≡ s.committed
        → s1.candidate ≡ some text
        → Calls compare_config s1 x
        → Result (apply_or_discard N dry_run text x)
    unfolding apply_or_discard effect_of is_commit
    compared s1 x h k (went_wrong m e) =
        failed refl refl (separate compare_config _ (differs compare_config refl) ∙ h)
    compared s1 x h k (went_well diff) =
        let s2 = record s1 { calls = s1.calls + 1 } in
        either_way dry_run _ _ (λ d. discard-Commits diff s2 _ d h (call-Calls discard_config s2))
          (λ d. commit-Commits diff s2 _ d h k (call-Calls commit_config s2))
      where
        either_way :
            (b : Bool) (x y : CommandResult × NapalmState)
            → (b ≡ true → Result x)
            → (b ≡ false → Result y)
            → Result (if b then x else y)
        either_way true x y h k = h refl
        either_way false x y h k = k refl

    loaded :
        (s1 : NapalmState) (x : Try String × NapalmState)
        → s1.committed ≡ s.committed
        → Calls (load_merge_candidate text) s1 x
        → Result (after_load N dry_run text x)
    unfolding after_load effect_of is_commit
    loaded s1 x h (went_wrong m e) =
        failed refl refl
          (separate (load_merge_candidate text) _ (differs (load_merge_candidate text) refl) ∙ h)
    loaded s1 x h (went_well out) =
        compared (record s1 { calls = s1.calls + 1; candidate = some text }) _ h refl
          (call-Calls compare_config _)

    opened :
        (x : Try String × NapalmState) → Calls open_session s x → Result (load N dry_run text x)
    unfolding load effect_of is_commit
    opened x (went_wrong m e) =
        failed refl refl (separate open_session _ (differs open_session refl))
    opened x (went_well out) =
        loaded (record s { calls = s.calls + 1 }) _ refl (call-Calls (load_merge_candidate text) _)

  -- For a device on which only a commit changes what runs, a configuration of at least one line has
  -- one result. Either it reports success: then its lines have been committed, or nothing in a dry
  -- run, and no candidate is left. Or it reports a failure: then it has committed nothing, unless it
  -- is no dry run and the commit itself has raised, which leaves the device in the driver's hands.
  pub configure-Commits :
      OnlyCommits
      → (dry_run : Bool) (line : String) (cfg : List String) (s : NapalmState)
      → (r : CommandResult) × ((configure N dry_run (line ∷ cfg) s).0 ≡ r ∷ [])
        × Commits dry_run (join_lines (line ∷ cfg)) s r (configure N dry_run (line ∷ cfg) s).1
  unfolding configure
  configure-Commits separate dry_run line cfg s =
      (_, refl, opened separate dry_run (join_lines (line ∷ cfg)) s _ (call-Calls open_session s))

found_type :
    (ts : List (String × String)) (t : String)
    → (type_in ts t ≡ t) ⊎ ((e : String × String) × In e ts × (type_in ts t ≡ e.1))
found_type [] t = inl refl
found_type ((a, b) ∷ ts) t = elim (Bool-cases (str_eq a t)) [
  | inl q ↦ inr ((a, b), inl refl, rw q refl)
  | inr q ↦ elim (found_type ts t) [ inl e ↦ inl (rw q e) | inr (e, m, f) ↦ inr (e, inr m, rw q f) ]
]

-- A device type that has been converted is converted to itself: an endpoint and a worker may both
-- convert it.
pub convert_twice :
    (t t' : String) → convert_device_type (some t) ≡ ok t' → convert_device_type (some t') ≡ ok t'
unfolding convert_device_type
convert_twice t t' h =
    let e : type_in device_types t ≡ t' = cc in
    let again : type_in device_types (type_in device_types t) ≡ type_in device_types t =
      elim (found_type device_types t) [
        | inl f ↦ rw f f
        | inr (x, m, f) ↦ rw f (
            All-at (λ y. type_in device_types y.1 ≡ y.1) x device_types
              (refl, (refl, (refl, (refl, (refl, (refl, tt)))))) m)
      ] in
    ap ok (ap (type_in device_types) (sym e) ∙ again ∙ e)
