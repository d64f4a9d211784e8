-- ===== src/Netmiko/Send/Answers.antt =====
-- What commands answer: each its output, or all together one failure.
use linux_net_x.Base.{
  String, ◌≡◌, ◌∙◌, refl, sym, ap, subst, inl, inr, ◌⊎◌, Bool, true, false, Option, none, some,
  List, [], ◌∷◌, ◌++◌, map, All, if◌then◌else◌, Option-cases,
}
use mathlib.Core.List.{append_assoc, append-nil}
use linux_net_x.Rpc.Execute.{CommandResult, returned, raised}
use linux_net_x.Napalm.{join_words, reported}
use linux_net_x.Netmiko.Send.{
  enter_enable, leave_enable, send_command, SendState, SendSession, SendOptions, Sent, effect_on,
  invoke, then_run, finished, loop, cleared_buffer, after_enable, sent_commands, answer_of, send_to,
}

module _ (N : SendSession) (o : SendOptions) where
  -- The results of the commands so far are followed by one for each command, of status 0; or an
  -- exception has ended the loop.
  abbrev Ended : List String → List CommandResult → Sent → Type 0
  Ended cmds rs x =
      ((message : String) × (x.0 ≡ raised message))
      ⊎ ((later : List CommandResult) × (x.0 ≡ returned (rs ++ later))
          × (map (λ r. r.command) later ≡ cmds)
          × All (λ r. r.exit_status ≡ 0) later
          × (o.enabled ≡ true → x.1.is_enabled ≡ false))

  finished-Ended :
      (b : Bool) (rs : List CommandResult) (s : SendState)
      → o.enabled ≡ b
      → Ended [] rs (finished N o b rs s)
  unfolding finished then_run invoke effect_on
  finished-Ended true rs s e = elim (Option-cases (N.raises s leave_enable)) [
    | inl f ↦ rw (f, invoke) (inr ([], ap returned (sym (append-nil rs)), refl, tt, λ q. refl))
    | inr (m, f) ↦ rw (f, invoke) (inl (m, refl))
  ]
  finished-Ended false rs s e =
      inr (
        [],
        ap returned (sym (append-nil rs)),
        refl,
        tt,
        λ q. let p : false ≡ true = sym e ∙ q in cc,
      )

  loop-Ended :
      (cmds : List String) (rs : List CommandResult) (s : SendState)
      → Ended cmds rs (loop N o cmds rs s)
  unfolding loop then_run
  loop-Ended [] rs s = finished-Ended o.enabled rs s refl
  loop-Ended (cmd ∷ cmds) rs s =
      called (invoke N o (send_command cmd) s) (λ rs' s'. loop-Ended cmds rs' s')
    where
      called :
          (x : Option String × SendState)
          → ((rs' : List CommandResult) (s' : SendState) → Ended cmds rs' (loop N o cmds rs' s'))
          → Ended (cmd ∷ cmds) rs (
              then_run N o x
                (λ s'. loop N o cmds (rs ++ reported cmd (N.output s' cmd) "" 0 ∷ []) s'))
      called (some message, s') ih = inl (message, refl)
      called (none, s') ih =
          let r = reported cmd (N.output s' cmd) "" 0 in
          elim (ih (rs ++ r ∷ []) s') [
            | inl (m, e) ↦ inl (m, e)
            | inr (later, e, c, z, q) ↦ inr (
              r ∷ later,
              e ∙ ap returned (append_assoc rs (r ∷ []) later),
              ap (◌∷◌ cmd) c,
              (refl, z),
              q,
            )
          ]

  -- Commands without a file transfer are answered together: each has a result with status 0, and
  -- the device has been left in the mode in which a request without `enable_mode` finds it, if the
  -- request had it; or there is one failure for all of them, whichever call raised.
  pub send_to-answers :
      (cmds : List String) (s : SendState)
      → o.file_transfer ≡ false
      → let x = send_to N o cmds s in
        ((message : String) × (x.0 ≡ reported (join_words cmds) "" message 1 ∷ []))
        ⊎ ((map (λ r. r.command) x.0 ≡ cmds)
            × All (λ r. r.exit_status ≡ 0) x.0
            × (o.enabled ≡ true → x.1.is_enabled ≡ false))
  unfolding send_to sent_commands then_run answer_of after_enable
  send_to-answers cmds s h = by_mode o.enabled
    where
      Answered : Sent → Type 0
      Answered x =
          ((message : String) × (answer_of N o cmds x.0
              ≡ reported (join_words cmds) "" message 1 ∷ []))
          ⊎ ((map (λ r. r.command) (answer_of N o cmds x.0) ≡ cmds)
              × All (λ r. r.exit_status ≡ 0) (answer_of N o cmds x.0)
              × (o.enabled ≡ true → x.1.is_enabled ≡ false))

      of_loop : (x : Sent) → Ended cmds [] x → Answered x
      of_loop x (inl (m, e)) = inl (m, ap (answer_of N o cmds) e)
      of_loop x (inr (later, e, c, z, q)) =
          let p : answer_of N o cmds x.0 ≡ later = ap (answer_of N o cmds) e in
          inr (
            ap (λ l. map (λ r. r.command) l) p ∙ c,
            subst (λ l. All (λ r. r.exit_status ≡ 0) l) (sym p) z,
            q,
          )

      after : (s' : SendState) → Answered (after_enable N o cmds s')
      after s' =
          subst
            (λ b. Answered (
              if b
              then (returned (N.transfer s'), s')
              else loop N o cmds [] (cleared_buffer N o s')))
            (sym h)
            (of_loop (loop N o cmds [] (cleared_buffer N o s'))
              (loop-Ended cmds [] (cleared_buffer N o s')))

      entered : (x : Option String × SendState) → Answered (then_run N o x (after_enable N o cmds))
      entered (none, s') = after s'
      entered (some message, s') = inl (message, refl)

      by_mode : (b : Bool) → Answered (sent_commands N o b cmds s)
      by_mode true = entered (invoke N o enter_enable s)
      by_mode false = after s
