-- ===== src/Paramiko/Logs/Following.antt =====
-- What a client that follows a log has read.
use mathlib.Core.List.{append-nil}
use linux_net_x.Base.{
  ◌≡◌, refl, false, List, [], ◌∷◌, ◌++◌, length, drop-append, length-append, IsPrefix, ltb, arith,
}
use linux_net_x.Paramiko.Logs.{Snapshots, read_logs, follow}

module _ (Byte : Type 0) where
  -- A log that stands still during a query.
  abbrev pub still : List Byte → Snapshots Byte
  still log = record { at_stat = log; at_read = log; at_end = log }

  -- Logs that only grow from one query to the next, from `first` to `final`.
  abbrev pub Grows : List Byte → List (List Byte) → List Byte → Type 0
  Grows first [] final = first ≡ final
  Grows first (log ∷ logs) final = IsPrefix first log × Grows log logs final

  abbrev pub stills : List (List Byte) → List (Snapshots Byte)
  stills [] = []
  stills (log ∷ logs) = still log ∷ stills logs

  -- What the task writes between the read and the second `stat` of a query, a client that goes on
  -- from the reported offset never reads: the first query gives the log as read, the second one
  -- only what has been written since.
  pub follow_skips :
      (seen log gap more : List Byte)
      → follow Byte (length seen) (
          record { at_stat = seen ++ log; at_read = seen ++ log; at_end = (seen ++ log) ++ gap }
          ∷ still (((seen ++ log) ++ gap) ++ more)
          ∷ [])
        ≡ log ++ more
  unfolding follow read_logs
  follow_skips seen log gap more =
      let e : ltb (length (seen ++ log)) (length seen) ≡ false =
        ground (arith, length-append seen log) in
      let f : ltb (length (((seen ++ log) ++ gap) ++ more)) (length ((seen ++ log) ++ gap))
          ≡ false =
        ground (arith, length-append ((seen ++ log) ++ gap) more) in
      rw (e, f, drop-append seen log, drop-append ((seen ++ log) ++ gap) more, append-nil) refl
