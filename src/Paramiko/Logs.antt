-- ===== src/Paramiko/Logs.antt =====
-- `ParamikoDriver._read_logs` (linux_net/plugins/drivers/paramiko/__init__.py). The remote log may
-- change between the three commands of a query, so each has its own log; a missing file is empty.
pub mod Following
use linux_net_x.Base.{ℕ, Bool, not, List, [], ◌∷◌, ◌++◌, length, drop, ltb, if◌then◌else◌}

module _ (Byte : Type 0) where
  -- The log at the first `stat`, at the read, and at the second `stat`.
  pub record Snapshots : Type 0 where
    pub at_stat : List Byte
    pub at_read : List Byte
    pub at_end : List Byte

  pub record Query : Type 0 where
    pub stdout : List Byte
    pub next_offset : ℕ
    pub is_running : Bool
    pub completed : Bool

  unfoldable pub read_logs : Bool → ℕ → Snapshots → Query
  read_logs running offset log =
      let from = if ltb (length log.at_stat) offset then 0 else offset in
      record {
        stdout = drop from log.at_read;
        next_offset = length log.at_end;
        is_running = running;
        completed = not running;
      }

  -- A client that queries again and again, each time from the last offset: all that it has read.
  unfoldable pub follow : ℕ → List Snapshots → List Byte
  unfolding read_logs
  follow offset [] = []
  follow offset (log ∷ logs) =
      let q = read_logs Bool.true offset log in q.stdout ++ follow q.next_offset logs
