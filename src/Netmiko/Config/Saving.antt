-- ===== src/Netmiko/Config/Saving.antt =====
-- When a configuration is saved.
use linux_net_x.Base.{
  ◌+◌, String, ◌≡◌, ◌∙◌, refl, sym, ap, inl, inr, ◌⊎◌, true, not, ◌&&◌, ◌||◌, Option, none, some,
  List, [], ◌∷◌, ◌++◌, map, any_of, ◌==◌, arith, Bool-cases, Option-cases,
}
use mathlib.Core.List.{append-nil}
use linux_net_x.Rpc.Execute.{CommandResult, returned, raised}
use linux_net_x.Netmiko.Config.{
  Call, set_base_prompt, commit, save_config, exit_config_mode, exit_enable_mode, DeviceState,
  Session, TextOps, Options, effect, passed, all_passed, append_output, perform, Body, and_then,
  when_enabled, leave, save, finish, after_lines,
}
use linux_net_x.Netmiko.Config.Lines.{written_by, written_by-some, is_plain, perform-Writes}

-- The same commands with the same exit statuses: outputs may differ.
pub record Same (reported rs : List CommandResult) : Type 0 where
  pub commands : map (λ r. r.command) rs ≡ map (λ r. r.command) reported
  pub statuses : map (λ r. r.exit_status) rs ≡ map (λ r. r.exit_status) reported

append_output-Same :
    (text : String) (reported rs : List CommandResult)
    → Same reported rs
    → Same reported (append_output text rs)
unfolding append_output
append_output-Same text reported rs h = record {
  commands = commands text rs ∙ h.commands;
  statuses = statuses text rs ∙ h.statuses;
}
  where
    commands :
        (text : String) (rs : List CommandResult)
        → map (λ r. r.command) (append_output text rs) ≡ map (λ r. r.command) rs
    commands text [] = refl
    commands text (r ∷ []) = ground arith
    commands text (r ∷ r' ∷ rs) = ap (◌∷◌ r.command) (commands text (r' ∷ rs))

    statuses :
        (text : String) (rs : List CommandResult)
        → map (λ r. r.exit_status) (append_output text rs) ≡ map (λ r. r.exit_status) rs
    statuses text [] = refl
    statuses text (r ∷ []) = ground arith
    statuses text (r ∷ r' ∷ rs) = ap (◌∷◌ r.exit_status) (statuses text (r' ∷ rs))

all_passed-statuses :
    (rs : List CommandResult)
    → all_passed rs ≡ not (any_of (λ n. not (n == 0)) (map (λ r. r.exit_status) rs))
unfolding all_passed
all_passed-statuses rs = ap not (any_passed rs)
  where
    any_passed :
        (rs : List CommandResult)
        → any_of (λ r. not (passed r)) rs ≡ any_of (λ n. not (n == 0)) (map (λ r. r.exit_status) rs)
    any_passed [] = refl
    any_passed (r ∷ rs) = ap (λ b. not (passed r) || b) (any_passed rs)

Same-all_passed :
    (reported rs : List CommandResult) → Same reported rs → all_passed rs ≡ all_passed reported
Same-all_passed reported rs h =
    all_passed-statuses rs
    ∙ ap (λ l. not (any_of (λ n. not (n == 0)) l)) h.statuses
    ∙ sym (all_passed-statuses reported)

-- From a device on, with the lines that were reported: nothing more is written, and there is a save
-- only if all lines have passed.
pub record Ends (reported : List CommandResult) (s : DeviceState) (b : Body) : Type 0 where
  pub unwritten : b.1.written ≡ s.written
  pub saved : (b.1.saves ≡ s.saves) ⊎ (all_passed reported ≡ true)
  pub reply :
      ((message : String) × (b.0 ≡ raised message))
      ⊎ ((rs : List CommandResult) × (b.0 ≡ returned rs) × Same reported rs)

module _ (T : TextOps) (D : Session) (o : Options) (reported : List CommandResult) where
  -- A call that raises ends the body; after one that does not, the rest decides.
  and_then-Ends :
      (s : DeviceState) (x : Option String × DeviceState) (k : DeviceState → Body)
      → x.1.written ≡ s.written
      → (x.1.saves ≡ s.saves) ⊎ (all_passed reported ≡ true)
      → ((s' : DeviceState) → Ends reported s' (k s'))
      → Ends reported s (and_then T D o x k)
  unfolding and_then
  and_then-Ends s (some message, s') k w v h = record {
    unwritten = w;
    saved = v;
    reply = inl (message, refl);
  }
  and_then-Ends s (none, s') k w v h =
      let e = h s' in
      record { unwritten = e.unwritten ∙ w; saved = both (k s') e.saved v; reply = e.reply }
    where
      both :
          (b : Body)
          → (b.1.saves ≡ s'.saves) ⊎ (all_passed reported ≡ true)
          → (s'.saves ≡ s.saves) ⊎ (all_passed reported ≡ true)
          → (b.1.saves ≡ s.saves) ⊎ (all_passed reported ≡ true)
      both b (inl p) (inl q) = inl (p ∙ q)
      both b (inl p) (inr q) = inr q
      both b (inr p) v = inr p

  pub silent : (c : Call) (e : Option String) → written_by c none ≡ [] → written_by c e ≡ []
  silent c none n = n
  silent c (some m) n = written_by-some c m

  call-Ends :
      (c : Call) (s : DeviceState) (k : DeviceState → Body)
      → is_plain c ≡ true
      → written_by c none ≡ []
      → ((s' : DeviceState) → Ends reported s' (k s'))
      → Ends reported s (and_then T D o (perform T D o c s) k)
  call-Ends c s k p n h =
      let x = perform T D o c s in
      let w = perform-Writes T D o c s p in
      and_then-Ends s x k
        (w.lines ∙ ap (λ l. s.written ++ l) (silent c x.0 n) ∙ append-nil s.written)
        (inl w.same_saves) h

  -- A save writes no line, and is allowed where all lines have passed.
  unwritten_by :
      (c : Call) (s : DeviceState)
      → (effect c (record s { calls = s.calls + 1 })).written ≡ s.written
      → (perform T D o c s).1.written ≡ s.written
  unfolding perform
  unwritten_by c s h = elim (Option-cases (D.raises s c)) [
    | inl e ↦ rw (e, perform) h
    | inr (m, e) ↦ rw (e, perform) refl
  ]

  saves_of_commit : (s : DeviceState) → (perform T D o commit s).1.saves ≡ s.saves
  unfolding perform effect
  saves_of_commit s = elim (Option-cases (D.raises s commit)) [
    | inl e ↦ rw (e, perform) refl
    | inr (m, e) ↦ rw (e, perform) refl
  ]

  enabled-Ends :
      (c : Call) (s : DeviceState) (k : DeviceState → Body)
      → is_plain c ≡ true
      → written_by c none ≡ []
      → ((s' : DeviceState) → Ends reported s' (k s'))
      → Ends reported s (when_enabled T D o c s k)
  unfolding when_enabled
  enabled-Ends c s k p n h = elim (Bool-cases o.enabled) [
    | inl e ↦ rw e (call-Ends c s k p n h)
    | inr e ↦ rw e (h s)
  ]

  leave-Ends :
      (rs : List CommandResult) (s : DeviceState)
      → Same reported rs
      → Ends reported s (leave T D o rs s)
  unfolding leave
  leave-Ends rs s h = call-Ends exit_config_mode s _ refl refl (λ s'.
      enabled-Ends exit_enable_mode s' _ refl refl
        (λ s''. record { unwritten = refl; saved = inl refl; reply = inr (rs, refl, h) }))

  save-Ends :
      (rs : List CommandResult) (s : DeviceState)
      → Same reported rs
      → all_passed reported ≡ true
      → Ends reported s (save T D o rs s)
  unfolding save effect
  save-Ends rs s h p = call-Ends set_base_prompt s _ refl refl (λ s'.
      and_then-Ends s' (perform T D o save_config s') _ (unwritten_by save_config s' refl) (inr p)
        (λ s''. leave-Ends _ s'' (append_output-Same (D.save_output s') reported rs h)))

  finish-Ends :
      (rs : List CommandResult) (s : DeviceState)
      → Same reported rs
      → Ends reported s (finish T D o rs s)
  unfolding finish
  finish-Ends rs s h = elim (Bool-cases (o.save && all_passed rs)) [
    | inl e ↦
        let p : all_passed rs ≡ true = ground arith in
        rw e (save-Ends rs s h (sym (Same-all_passed reported rs h) ∙ p))
    | inr e ↦ rw e (leave-Ends rs s h)
  ]

  pub after_lines-Ends : (s : DeviceState) → Ends reported s (after_lines T D o reported s)
  unfolding after_lines effect
  after_lines-Ends s = elim (Option-cases (D.commit_output s)) [
    | inl e ↦ rw (e, after_lines) (finish-Ends reported s same)
    | inr (text, e) ↦
        rw (e, after_lines)
          (and_then-Ends s (perform T D o commit s) _ (unwritten_by commit s refl)
            (inl (saves_of_commit s))
            (λ s'. finish-Ends _ s' (append_output-Same text reported reported same)))
  ]
    where
      same : Same reported reported
      same = record { commands = refl; statuses = refl }
