-- ===== src/Rpc/Execute/Runs.antt =====
-- What a run of a request does to its device, and what it answers.
use linux_net_x.Base.{
  ℕ, String, ◌≡◌, ◌≢◌, refl, ap, ◌∙◌, ◌⊎◌, inl, inr, Bool, Option, none, some, List, [], ◌∷◌,
  Bool-cases, ◌&&◌, not,
}
use linux_net_x.Nodes.{Error, Result, ok, raise}
use linux_net_x.Redis.{Hash, hget-hset_ne}
use linux_net_x.Detached.{TaskMeta, Registry, register, get}
use linux_net_x.Rpc.Execute.{
  CommandResult, Try, returned, raised, Act, connected, disconnected, launched, sent, configured,
  Call, Templates, Plugin, has_command, config_given, prepare, chosen, run, task_meta, act_ends,
  answer_of, try_block, finally, after_connect, with_driver, prepared, execute,
}

module _ (Context : Type 0) (T : Templates Context) (HT : Hash TaskMeta) (mongodb_enabled : Bool)
    (now : ℕ) (d : Plugin Context) (task_id : String) where
  abbrev Run : Type 0
  Run = Result (List CommandResult) × List Act × Registry HT

  -- A run that opens a session makes one call on it and closes it. It registers nothing, or it has
  -- launched its task and touches no other entry; a run that raises registers nothing.
  pub record IsSafe (x : Run) (r : Registry HT) : Type 0 where
    pub balanced : (x.1 ≡ []) ⊎ ((act : Act) × (x.1 ≡ connected ∷ act ∷ disconnected ∷ []))
    pub launches :
        (x.2 ≡ r)
        ⊎ ((command : String) × (x.1 ≡ connected ∷ launched command task_id ∷ disconnected ∷ [])
            × ((k : String) → task_id ≢ k → get HT k x.2 ≡ get HT k r))
    pub quiet : (e : Error) → x.0 ≡ raise e → x.2 ≡ r

  untouched-IsSafe : (a : Result (List CommandResult)) (r : Registry HT) → IsSafe (a, [], r) r
  untouched-IsSafe a r = record { balanced = inl refl; launches = inl refl; quiet = λ e h. refl }

  unregistered-IsSafe :
      (a : Result (List CommandResult)) (act : Act) (r : Registry HT)
      → IsSafe (a, connected ∷ act ∷ disconnected ∷ [], r) r
  unregistered-IsSafe a act r = record {
    balanced = inr (act, refl);
    launches = inl refl;
    quiet = λ e h. refl;
  }

  abbrev ran : Call Context → List String → Act → Try (List CommandResult) → Registry HT → Run
  ran c payload act o r =
      let x = act_ends Context T HT mongodb_enabled now c act o r in
      (
        answer_of Context T HT mongodb_enabled c payload x.0,
        connected ∷ act ∷ disconnected ∷ [],
        x.1,
      )

  registers_only :
      (k : String) (m : TaskMeta) (r : Registry HT)
      → task_id ≢ k
      → get HT k (register HT mongodb_enabled task_id m r) ≡ get HT k r
  unfolding get register
  registers_only k m r ne = hget-hset_ne HT r.table task_id k m ne

  -- The task that a launch names is the one of the run.
  abbrev pub LaunchNames : Act → Type 0
  LaunchNames (launched command k) = k ≡ task_id
  LaunchNames _ = Unit

  ran-IsSafe :
      (c : Call Context) (payload : List String) (act : Act) (o : Try (List CommandResult))
      (r : Registry HT)
      → LaunchNames act
      → IsSafe (ran c payload act o r) r
  unfolding act_ends answer_of
  ran-IsSafe c payload act (raised message) r n = unregistered-IsSafe _ act r
  ran-IsSafe c payload (launched command k) (returned results) r n = record {
    balanced = inr (launched command k, refl);
    launches = inr (
      command,
      ap (λ j. connected ∷ launched command j ∷ disconnected ∷ []) n,
      (λ j ne.
          ap (λ i. get HT j (register HT mongodb_enabled i (task_meta Context T now c results) r)) n
          ∙ registers_only j (task_meta Context T now c results) r ne),
    );
    quiet = λ e h. cc;
  }
  ran-IsSafe c payload (sent l) (returned results) r n = unregistered-IsSafe _ (sent l) r
  ran-IsSafe c payload (configured l) (returned results) r n =
      unregistered-IsSafe _ (configured l) r
  ran-IsSafe c payload connected (returned results) r n = unregistered-IsSafe _ connected r
  ran-IsSafe c payload disconnected (returned results) r n = unregistered-IsSafe _ disconnected r

  after_connect-IsSafe :
      (c : Call Context) (payload : List String) (act : Act) (failure : Option String)
      (r : Registry HT)
      → LaunchNames act
      → IsSafe (after_connect Context T HT mongodb_enabled now d c payload act failure r) r
  unfolding after_connect try_block finally answer_of
  after_connect-IsSafe c payload act (some message) r n = untouched-IsSafe _ r
  after_connect-IsSafe c payload act none r n = ran-IsSafe c payload act (run Context T d act) r n

  pub chosen-Names :
      (sends : Bool) (c : Call Context) (payload : List String)
      → LaunchNames (chosen Context T sends c task_id payload)
  unfolding chosen
  chosen-Names sends c payload =
      elim (Bool-cases (c.detach && not (config_given Context T c.config))) [
        | inl e ↦ rw e refl
        | inr e ↦ rw e (elim (Bool-cases sends) [ inl f ↦ rw f tt | inr f ↦ rw f tt ])
      ]

  with_driver-IsSafe :
      (sends : Bool) (x : Call Context × List String) (failure : Option Error) (r : Registry HT)
      → IsSafe (with_driver Context T HT mongodb_enabled now d task_id sends x failure r) r
  unfolding with_driver
  with_driver-IsSafe sends (c, payload) (some e) r = untouched-IsSafe _ r
  with_driver-IsSafe sends (c, payload) none r =
      after_connect-IsSafe c payload (chosen Context T sends c task_id payload) d.connect r
        (chosen-Names sends c payload)

  prepared-IsSafe :
      (sends : Bool) (x : Result (Call Context × List String)) (r : Registry HT)
      → IsSafe (prepared Context T HT mongodb_enabled now d task_id sends x r) r
  unfolding prepared
  prepared-IsSafe sends (raise e) r = untouched-IsSafe _ r
  prepared-IsSafe sends (ok x) r = with_driver-IsSafe sends x (d.init x.0) r

  -- However a run ends, a session that it has opened has been used for one call and closed. It
  -- registers nothing, or it has launched its task and touches no other entry; a run that raises
  -- registers nothing.
  pub execute-IsSafe :
      (c : Call Context) (r : Registry HT)
      → IsSafe (execute Context T HT mongodb_enabled now d task_id c r) r
  unfolding execute
  execute-IsSafe c r = prepared-IsSafe (has_command Context c) (prepare Context T c) r
