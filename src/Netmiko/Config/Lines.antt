-- ===== src/Netmiko/Config/Lines.antt =====
-- The lines of a configuration: what is written, and what is reported of each.
use linux_net_x.Base.{
  ℕ, String, ◌≡◌, ◌∙◌, refl, sym, ap, subst, ◌+◌, inl, inr, Bool, true, false, none, some, List, [],
  ◌∷◌, ◌++◌, map, any_of, ◌==◌, if◌then◌else◌, ◌⊎◌, All, arith, Bool-cases, Option-cases, Option,
}
use mathlib.Core.List.{append_assoc, append-nil}
use linux_net_x.Rpc.Execute.{CommandResult}
use linux_net_x.Netmiko.Config.Verdicts.{
  after_line, after_answer, matches_error, Accepted, Refused, not_written, not_read, matched,
  Reports, all_done, line_passed, line_failed,
}
use linux_net_x.Netmiko.Config.{
  Call, set_base_prompt, enable, commit, save_config, exit_config_mode, exit_enable_mode,
  config_mode, read_until_pattern, write_channel, DeviceState, Session, TextOps, Options, effect,
  passed, perform, line_result, cleaned, check_patterns, answered, after_write, attempt, skipped,
  run_lines,
}

-- Nothing has been committed or saved, and the lines have been written.
pub record Writes (s s' : DeviceState) (w : List String) : Type 0 where
  pub same_saves : s'.saves ≡ s.saves
  pub same_commits : s'.commits ≡ s.commits
  pub lines : s'.written ≡ s.written ++ w

pub Writes-trans :
    (s s' s'' : DeviceState) (v w : List String)
    → Writes s s' v
    → Writes s' s'' w
    → Writes s s'' (v ++ w)
Writes-trans s s' s'' v w h k = record {
  same_saves = k.same_saves ∙ h.same_saves;
  same_commits = k.same_commits ∙ h.same_commits;
  lines = k.lines ∙ ap (λ l. l ++ w) h.lines ∙ append_assoc s.written v w;
}

-- What a call writes: itself, if it is a line and does not raise.
abbrev pub written_by : Call → Option String → List String
written_by (write_channel line) none = line ∷ []
written_by _ _ = []

-- The calls that neither commit nor save.
abbrev pub is_plain : Call → Bool
is_plain commit = false
is_plain save_config = false
is_plain _ = true

pub Writes-refl :
    (s : DeviceState) (n : ℕ) (a b : Bool)
    → Writes s (record s { calls = n; is_enabled = a; in_config = b }) []
Writes-refl s n a b = record {
  same_saves = refl;
  same_commits = refl;
  lines = sym (append-nil s.written);
}

effect-Writes :
    (c : Call) (s : DeviceState) (n : ℕ)
    → is_plain c ≡ true
    → Writes s (effect c (record s { calls = n })) (written_by c none)
unfolding effect
effect-Writes set_base_prompt s n h = Writes-refl s n s.is_enabled s.in_config
effect-Writes enable s n h = Writes-refl s n true s.in_config
effect-Writes read_until_pattern s n h = Writes-refl s n s.is_enabled s.in_config
effect-Writes commit s n h = cc
effect-Writes save_config s n h = cc
effect-Writes exit_config_mode s n h = Writes-refl s n s.is_enabled false
effect-Writes exit_enable_mode s n h = Writes-refl s n false s.in_config
effect-Writes (config_mode command) s n h = Writes-refl s n s.is_enabled true
effect-Writes (write_channel line) s n h = record {
  same_saves = refl;
  same_commits = refl;
  lines = refl;
}

pub written_by-some : (c : Call) (m : String) → written_by c (some m) ≡ []
written_by-some (write_channel line) m = refl
written_by-some set_base_prompt m = refl
written_by-some enable m = refl
written_by-some read_until_pattern m = refl
written_by-some commit m = refl
written_by-some save_config m = refl
written_by-some exit_config_mode m = refl
written_by-some exit_enable_mode m = refl
written_by-some (config_mode command) m = refl

module _ (T : TextOps) (D : Session) (o : Options) where
  pub perform-Writes :
      (c : Call) (s : DeviceState)
      → is_plain c ≡ true
      → Writes s (perform T D o c s).1 (written_by c (perform T D o c s).0)
  unfolding perform
  perform-Writes c s p = elim (Option-cases (D.raises s c)) [
    | inl e ↦ rw (e, perform) (effect-Writes c s (s.calls + 1) p)
    | inr (m, e) ↦
        rw (e, perform)
          (rw (written_by-some c m) (Writes-refl s (s.calls + 1) s.is_enabled s.in_config))
  ]

  -- One line: what its attempt leaves.
  record Attempted (cmd : String) (s : DeviceState) (x : (CommandResult × String) × DeviceState)
      : Type 0 where
    own : x.0.0.command ≡ cmd
    written : List String
    writes : Writes s x.1 written
    judged :
        (Accepted T D o cmd s x.0.0 × (x.1 ≡ after_answer T D o cmd s) × (written ≡ cmd ∷ []))
        ⊎ Refused T D o cmd s x.0.0 written

  line_result-command : (cmd out : String) → (line_result T D o cmd out).command ≡ cmd
  unfolding line_result
  line_result-command cmd out = ground arith

  line_result-status :
      (cmd out : String)
      → (line_result T D o cmd out).exit_status
        ≡ (if any_of (λ p. T.search p out) (check_patterns o) then 1 else 0)
  unfolding line_result
  line_result-status cmd out = ground arith

  one_line : (cmd : String) (s : DeviceState) → Writes s (after_answer T D o cmd s) (cmd ∷ [])
  one_line cmd s = record { same_saves = refl; same_commits = refl; lines = refl }

  -- An answer that has been read decides by the patterns.
  read-Attempted :
      (cmd : String) (s : DeviceState)
      → D.raises s (write_channel cmd) ≡ none
      → D.raises (after_line T D o cmd s) read_until_pattern ≡ none
      → Attempted cmd s (answered T D o cmd (none, after_answer T D o cmd s))
  unfolding answered
  read-Attempted cmd s u v =
      let out = cleaned T D o cmd (D.output (after_answer T D o cmd s)) in
      record {
        own = line_result-command cmd out;
        written = cmd ∷ [];
        writes = one_line cmd s;
        judged = elim (Bool-cases (matches_error T D o cmd s)) [
          | inl e ↦ inr (matched u v e (line_result-status cmd out ∙ rw e refl) refl)
          | inr e ↦ inl (
            record {
              written = u;
              read = v;
              clean = e;
              status = line_result-status cmd out ∙ rw e refl;
            },
            refl,
            refl,
          )
        ];
      }

  -- A call that does not raise, and one that does.
  perform-returns :
      (c : Call) (s : DeviceState)
      → D.raises s c ≡ none
      → perform T D o c s ≡ (none, effect c (record s { calls = s.calls + 1 }))
  unfolding perform
  perform-returns c s e = rw (e, perform) refl

  perform-raises :
      (c : Call) (s : DeviceState) (m : String)
      → D.raises s c ≡ some m
      → perform T D o c s ≡ (some m, record s { calls = s.calls + 1 })
  unfolding perform
  perform-raises c s m e = rw (e, perform) refl

  attempt-Attempted : (cmd : String) (s : DeviceState) → Attempted cmd s (attempt T D o cmd s)
  unfolding attempt after_write answered effect
  attempt-Attempted cmd s = elim (Option-cases (D.raises s (write_channel cmd))) [
    | inr (m, u) ↦ rw (perform-raises (write_channel cmd) s m u) (record {
      own = refl;
      written = [];
      writes = Writes-refl s (s.calls + 1) s.is_enabled s.in_config;
      judged = inr (not_written u refl refl);
    })
    | inl u ↦
        rw (perform-returns (write_channel cmd) s u)
          (elim (Option-cases (D.raises (after_line T D o cmd s) read_until_pattern)) [
            | inl v ↦
                rw (perform-returns read_until_pattern (after_line T D o cmd s) v)
                  (read-Attempted cmd s u v)
            | inr (m, v) ↦
                rw (perform-raises read_until_pattern (after_line T D o cmd s) m v) (record {
                  own = refl;
                  written = cmd ∷ [];
                  writes = one_line cmd s;
                  judged = inr (not_read u v refl refl);
                })
          ])
  ]

  skipped_all :
      (reason cmd : String) (cfg : List String)
      → All (λ x. passed x ≡ false) (map (skipped T D o reason cmd) cfg)
  unfolding skipped
  skipped_all reason cmd [] = tt
  skipped_all reason cmd (line ∷ cfg) = (refl, skipped_all reason cmd cfg)

  skipped-command :
      (reason cmd : String) (cfg : List String)
      → map (λ x. x.command) (map (skipped T D o reason cmd) cfg) ≡ cfg
  unfolding skipped
  skipped-command reason cmd [] = refl
  skipped-command reason cmd (line ∷ cfg) = ap (◌∷◌ line) (skipped-command reason cmd cfg)

  Refused-fails :
      (cmd : String) (s : DeviceState) (r : CommandResult) (w : List String)
      → Refused T D o cmd s r w
      → passed r ≡ false
  Refused-fails cmd s r w (not_written u e q) = rw e refl
  Refused-fails cmd s r w (not_read u v e q) = rw e refl
  Refused-fails cmd s r w (matched u v p e q) = rw e refl

  -- The lines run up to the first that is refused, and each line has its result.
  pub run_lines-Reports :
      (cfg : List String) (s : DeviceState)
      → let x = run_lines T D o cfg s in
        (w : List String) × Reports T D o s cfg x.0 w × Writes s x.1 w
  unfolding run_lines
  run_lines-Reports [] s = ([], all_done s, Writes-refl s s.calls s.is_enabled s.in_config)
  run_lines-Reports (cmd ∷ cfg) s =
      let r = attempt T D o cmd s in
      let a = attempt-Attempted cmd s in
      elim a.judged [
        | inl (fine, same, whole) ↦
            let (w, reports, writes) = run_lines-Reports cfg r.1 in
            let e : passed r.0.0 ≡ true = ap (λ n. n == 0) fine.status in
            rw e (
              cmd ∷ w,
              line_passed s cmd r.0.0 a.own fine
                  (subst (λ d. Reports T D o d cfg (run_lines T D o cfg r.1).0 w) same reports),
              Writes-trans s r.1 _ (cmd ∷ []) w (subst (Writes s r.1) whole a.writes) writes,
            )
        | inr refusal ↦ rw (Refused-fails cmd s r.0.0 a.written refusal) (
          a.written,
          line_failed s cmd r.0.0 cfg _ a.written a.own refusal (skipped_all r.0.1 cmd cfg)
              (skipped-command r.0.1 cmd cfg),
          a.writes,
        )
      ]
