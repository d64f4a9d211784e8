-- ===== src/Paramiko/Config/Stops.antt =====
-- Which lines of a configuration are run.
use linux_net_x.Base.{
  ℕ, ◌+◌, String, ◌≡◌, ◌≢◌, refl, sym, ap, Option-cases, ◌∙◌, ◌⊎◌, inl, inr, true, false, none,
  some, List, [], ◌∷◌, ◌++◌, arith, ◌==◌, Bool-cases,
}
use linux_net_x.Rpc.Execute.{CommandResult, join_lines}
use linux_net_x.Paramiko.Config.{
  Answer, exited, broke, Args, stops, LoopEnd, with_line, broken_line, run_lines, result_of, config,
}

module _ (exec : ℕ → String → Answer) where
  -- The lines from the k-th on exit with status 0.
  abbrev pub Pass : ℕ → List String → Type 0
  Pass k [] = Unit
  Pass k (line ∷ lines) =
      ((out : String) × (err : String) × (exec k line ≡ exited out err 0)) × Pass (k + 1) lines

  -- A line that exits with the status `code`, or raises.
  abbrev pub Fails : ℕ → String → LoopEnd → Type 0
  Fails k line e =
      ((out : String) × (err : String) × (exec k line ≡ exited out err e.exit_status)
        × (e.exit_status ≢ 0)
        × (e.exception ≡ none))
      ⊎ ((message : String) × (exec k line ≡ broke message) × (e.exception ≡ some message))

  -- The place of the line that follows `before`.
  abbrev pub position : ℕ → List String → ℕ
  position k [] = k
  position k (line ∷ before) = position (k + 1) before

  -- All lines have passed, or those before the first that fails, which is the last one run.
  pub data Stopped (k : ℕ) (lines : List String) (e : LoopEnd) : Type 0 where
    all_passed :
        Pass k lines
        → e.executed ≡ lines
        → e.exit_status ≡ 0
        → e.exception ≡ none
        → Stopped k lines e
    first_failed :
        (before : List String) (line : String) (after : List String)
        → lines ≡ before ++ line ∷ after
        → e.executed ≡ before ++ line ∷ []
        → Pass k before
        → Fails (position k before) line e
        → Stopped k lines e

  Stopped-with_line :
      (k : ℕ) (line out err : String) (lines : List String) (e : LoopEnd)
      → exec k line ≡ exited out err 0
      → Stopped (k + 1) lines e
      → Stopped k (line ∷ lines) (with_line line out err e)
  unfolding with_line
  Stopped-with_line k line out err lines e f (all_passed pass ran zero none_raised) =
      all_passed ((out, err, f), pass) (ap (◌∷◌ line) ran) zero none_raised
  Stopped-with_line k line out err lines e f (first_failed before l after split ran pass fails) =
      first_failed (line ∷ before) l after (ap (◌∷◌ line) split) (ap (◌∷◌ line) ran)
        ((out, err, f), pass) fails

  run_lines-Stopped :
      (k : ℕ) (lines : List String) → Stopped k lines (run_lines true exec k 0 lines)
  unfolding run_lines with_line broken_line
  run_lines-Stopped k [] = all_passed tt refl refl refl
  run_lines-Stopped k (line ∷ lines) = answered (exec k line) refl (run_lines-Stopped (k + 1) lines)
    where
      answered :
          (x : Answer)
          → exec k line ≡ x
          → Stopped (k + 1) lines (run_lines true exec (k + 1) 0 lines)
          → Stopped k (line ∷ lines) (run_lines true exec k 0 (line ∷ lines))
      answered (broke message) f ih =
          rw (f, run_lines) (first_failed [] line lines refl refl tt (inr (message, f, refl)))
      answered (exited out err code) f ih = elim (Bool-cases (code == 0)) [
        | inl q ↦
            let zero : code ≡ 0 = ground arith in
            rw (f, run_lines)
              (rw q (Stopped-with_line k line out err lines _ (f ∙ ap (exited out err) zero) ih))
        | inr q ↦
            rw (f, run_lines)
              (rw q (
                first_failed [] line lines refl refl tt
                  (inl (out, err, f, (λ z. ground arith), refl))))
      ]

  -- The lines that have been run, and the result. All lines have exited with 0, or the lines before
  -- the last one run: that one has exited with another status, which the result has, or has raised.
  pub data Outcome (lines : List String) (r : CommandResult) (executed : List String) : Type 0 where
    passed : Pass 0 lines → executed ≡ lines → r.exit_status ≡ 0 → Outcome lines r executed
    exited_with :
        (before : List String) (line : String) (after : List String) (out err : String)
        → lines ≡ before ++ line ∷ after
        → executed ≡ before ++ line ∷ []
        → Pass 0 before
        → exec (position 0 before) line ≡ exited out err r.exit_status
        → r.exit_status ≢ 0
        → Outcome lines r executed
    raised :
        (before : List String) (line : String) (after : List String)
        → lines ≡ before ++ line ∷ after
        → executed ≡ before ++ line ∷ []
        → Pass 0 before
        → exec (position 0 before) line ≡ broke r.stderr
        → r.exit_status ≡ 1
        → Outcome lines r executed

  result_of-raised :
      (lines : List String) (e : LoopEnd) (message : String)
      → e.exception ≡ some message
      → ((result_of lines e).exit_status ≡ 1) × ((result_of lines e).stderr ≡ message)
  unfolding result_of
  result_of-raised lines e message f = rw (f, result_of) (refl, refl)

  result_of-exited :
      (lines : List String) (e : LoopEnd)
      → e.exception ≡ none
      → (result_of lines e).exit_status ≡ e.exit_status
  unfolding result_of
  result_of-exited lines e f = rw (f, result_of) refl

  result_of-command :
      (lines : List String) (e : LoopEnd) → (result_of lines e).command ≡ join_lines lines
  unfolding result_of
  result_of-command lines e = elim (Option-cases e.exception) [
    | inl f ↦ rw (f, result_of) refl
    | inr (m, f) ↦ rw (f, result_of) refl
  ]

  result_of-Outcome :
      (lines : List String) (e : LoopEnd)
      → Stopped 0 lines e
      → Outcome lines (result_of lines e) e.executed
  result_of-Outcome lines e (all_passed pass ran zero f) =
      passed pass ran (result_of-exited lines e f ∙ zero)
  result_of-Outcome lines e
        (first_failed before line after split ran pass (inl (out, err, x, n, f))) =
      let q = result_of-exited lines e f in
      exited_with before line after out err split ran pass (x ∙ ap (exited out err) (sym q))
        (λ z. n (sym q ∙ z))
  result_of-Outcome lines e (first_failed before line after split ran pass (inr (message, x, f))) =
      let (one, same) = result_of-raised lines e message f in
      raised before line after split ran pass (x ∙ ap broke (sym same)) one

  -- With `stop_on_error`, the lines that a configuration runs are all its lines, which then have all
  -- exited with 0, or those up to the first that fails or raises. Its one result has its lines as the
  -- command and the exit status of the line that failed, 1 with the exception's text where it
  -- raised, and else 0.
  pub config-Stopped :
      (a : Args) (line : String) (lines : List String)
      → stops a ≡ true
      → (r : CommandResult) × ((config a exec (line ∷ lines)).0 ≡ r ∷ [])
        × (r.command ≡ join_lines (line ∷ lines))
        × Outcome (line ∷ lines) r (config a exec (line ∷ lines)).1
  unfolding config
  config-Stopped a line lines s =
      let e = run_lines true exec 0 0 (line ∷ lines) in
      rw s (
        result_of (line ∷ lines) e,
        refl,
        result_of-command (line ∷ lines) e,
        result_of-Outcome (line ∷ lines) e (run_lines-Stopped 0 (line ∷ lines)),
      )

  -- No line raises.
  abbrev pub Quiet : Type 0
  Quiet =
      (k : ℕ) (line : String)
      → (out : String) × (err : String) × (code : ℕ) × (exec k line ≡ exited out err code)

  run_lines-all :
      (k status : ℕ) (lines : List String)
      → Quiet
      → (run_lines false exec k status lines).executed ≡ lines
  unfolding run_lines with_line
  run_lines-all k status [] quiet = refl
  run_lines-all k status (line ∷ lines) quiet =
      let (out, err, code, f) = quiet k line in
      rw (f, run_lines)
        (elim (Bool-cases (code == 0)) [
          | inl q ↦ rw q (ap (◌∷◌ line) (run_lines-all (k + 1) status lines quiet))
          | inr q ↦ rw q (ap (◌∷◌ line) (run_lines-all (k + 1) code lines quiet))
        ])

  -- Without driver arguments a configuration runs all its lines, whichever of them fail, unless one
  -- raises: the default of `stop_on_error` is not that of a request without arguments.
  pub config_runs_on : (lines : List String) → Quiet → (config Args.no_args exec lines).1 ≡ lines
  unfolding config
  config_runs_on [] quiet = refl
  config_runs_on (line ∷ lines) quiet = run_lines-all 0 0 (line ∷ lines) quiet
