-- ===== src/Netmiko/Config/Verdicts.antt =====
-- The verdict on each line of a configuration, by what its session answers and raises.
use linux_net_x.Base.{
  String, ◌≡◌, refl, Bool, true, false, none, some, List, [], ◌∷◌, ◌++◌, ◌+◌, map, any_of, All,
}
use linux_net_x.Rpc.Execute.{CommandResult}
use linux_net_x.Netmiko.Config.{
  read_until_pattern, write_channel, DeviceState, Session, TextOps, Options, passed, cleaned,
  check_patterns,
}

module _ (T : TextOps) (D : Session) (o : Options) where
  -- The device when a line has been written, and when its answer has been read.
  abbrev pub after_line : String → DeviceState → DeviceState
  after_line cmd s = record s { calls = s.calls + 1; written = s.written ++ cmd ∷ [] }

  abbrev pub after_answer : String → DeviceState → DeviceState
  after_answer cmd s = record s { calls = s.calls + 1 + 1; written = s.written ++ cmd ∷ [] }

  -- The answer to a line matches an error pattern.
  abbrev pub matches_error : String → DeviceState → Bool
  matches_error cmd s =
      any_of (λ p. T.search p (cleaned T D o cmd (D.output (after_answer cmd s))))
        (check_patterns o)

  -- A line is written and its answer read without an exception, and no error pattern matches it.
  pub record Accepted (cmd : String) (s : DeviceState) (r : CommandResult) : Type 0 where
    pub written : D.raises s (write_channel cmd) ≡ none
    pub read : D.raises (after_line cmd s) read_until_pattern ≡ none
    pub clean : matches_error cmd s ≡ false
    pub status : r.exit_status ≡ 0

  -- A line cannot be written, its answer cannot be read, or an error pattern matches it; and what has
  -- been written.
  pub data Refused (cmd : String) (s : DeviceState) (r : CommandResult) (w : List String)
      : Type 0 where
    not_written :
        D.raises s (write_channel cmd) ≡ some r.stderr
        → r.exit_status ≡ 1
        → w ≡ []
        → Refused cmd s r w
    not_read :
        D.raises s (write_channel cmd) ≡ none
        → D.raises (after_line cmd s) read_until_pattern ≡ some r.stderr
        → r.exit_status ≡ 1
        → w ≡ cmd ∷ []
        → Refused cmd s r w
    matched :
        D.raises s (write_channel cmd) ≡ none
        → D.raises (after_line cmd s) read_until_pattern ≡ none
        → matches_error cmd s ≡ true
        → r.exit_status ≡ 1
        → w ≡ cmd ∷ []
        → Refused cmd s r w

  -- The results of some lines from a device on, and what has been written: lines that are accepted,
  -- and then, if one is refused, that line and a failure for each of the rest, which are not written.
  pub data Reports : DeviceState → List String → List CommandResult → List String → Type 0 where
    all_done : (s : DeviceState) → Reports s [] [] []
    line_passed :
        (s : DeviceState) (cmd : String) (r : CommandResult) {cfg written : List String}
        {rs : List CommandResult}
        → r.command ≡ cmd
        → Accepted cmd s r
        → Reports (after_answer cmd s) cfg rs written
        → Reports s (cmd ∷ cfg) (r ∷ rs) (cmd ∷ written)
    line_failed :
        (s : DeviceState) (cmd : String) (r : CommandResult) (cfg : List String)
        (rs : List CommandResult) (written : List String)
        → r.command ≡ cmd
        → Refused cmd s r written
        → All (λ x. passed x ≡ false) rs
        → map (λ x. x.command) rs ≡ cfg
        → Reports s (cmd ∷ cfg) (r ∷ rs) written

  pub Reports-command :
      {s : DeviceState} {cfg : List String} {rs : List CommandResult} {w : List String}
      → Reports s cfg rs w
      → map (λ r. r.command) rs ≡ cfg
  Reports-command (all_done s) = refl
  Reports-command (line_passed s cmd r e p h) = cc (e, Reports-command h)
  Reports-command (line_failed s cmd r cfg rs w e p a c) = cc (e, c)
