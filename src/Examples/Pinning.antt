-- ===== src/Examples/Pinning.antt =====
-- Two nodes register, and one of them pins a worker for a host.
use linux_net_x.Base.{ℕ, String, ◌≡◌, refl, inl, some, List, [], ◌∷◌, In}
use linux_net_x.Nodes.{NodeInfo}
use linux_net_x.Pids.{pid_set}
use linux_net_x.Redis.{Hash, hdel_all}
use linux_net_x.Redis.Table.{table, lookup, without, scan, set_absent}
use linux_net_x.Node.{new_proc, add, after_start, register, hosts_of}
use linux_net_x.Node.Pinning.{Registered}
use linux_net_x.Node.Pinning.World.{
  spawn, restart, Event, World, run, Orderly, step, handle, IsInitial, run-Registered, pinned_once,
}

abbrev Names : Hash String
Names = table

abbrev Infos : Hash NodeInfo
Infos = table

abbrev n1 : String
n1 = "n1"

abbrev n2 : String
n2 = "n2"

abbrev pid : ℕ
pid = 7

abbrev start : World Names Infos
start = record {
  procs = λ _. new_proc [];
  store = record { hosts = []; nodes = []; shutdowns = [] };
}

abbrev history : List (String × Event)
history =
    ("n1", restart 2 "NodeQ_n1") ∷ ("n2", restart 1 "NodeQ_n2") ∷ ("n1", spawn (some pid) "h") ∷ []

abbrev pinned_h : World Names Infos
pinned_h = run Names Infos history start

start-IsInitial : IsInitial Names Infos start
unfolding lookup
start-IsInitial = record { idle = λ name. refl; unregistered = λ name. refl }

history-Orderly : Orderly Names Infos history start
unfolding step handle
history-Orderly = (tt, (tt, ((tt, tt), tt)))

abbrev n1_info : NodeInfo
n1_info = record { hostname = "n1"; count = 1; capacity = 2; queue = "NodeQ_n1" }

found : Infos.hget pinned_h.store.nodes "n1" ≡ some n1_info
unfolding run step handle add after_start register hosts_of hdel_all lookup without scan set_absent
found = refl

has_worker : In (pid, "h") (pinned_h.procs "n1").pids
unfolding run step handle add after_start register hosts_of hdel_all lookup without scan set_absent
    pid_set
has_worker = inl refl

pinned_once_example : (n1 ≡ n1) × (pid ≡ pid)
pinned_once_example =
    pinned_once Names Infos start history "n1" "n1" "h" n1_info n1_info pid pid start-IsInitial
      history-Orderly found found has_worker has_worker

run-Registered_example : Registered Names Infos "n1" (pinned_h.procs "n1") pinned_h.store n1_info
run-Registered_example =
    run-Registered Names Infos start history "n1" n1_info start-IsInitial history-Orderly found
