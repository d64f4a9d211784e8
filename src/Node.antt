-- ===== src/Node.antt =====
-- linux_net/worker/node.py: `NodeWorker`, which owns the pinned workers of a node, and
-- linux_net/services/manager.py: `Manager._force_delete_node`, which clears a node that is gone.
pub mod Pinning
use linux_net_x.Base.{
  ℕ, zero, suc, ◌+◌, ◌-◌, String, ◌≡◌, Bool, true, false, Option, none, some, List, [], ◌∷◌, ◌++◌,
  map, keep, any_of, leb, str_eq, if◌then◌else◌,
}
use linux_net_x.Nodes.{NodeInfo, Error, host_already_pinned, node_preempted, start_failed}
use linux_net_x.Pids.{Pids, pid_get, pid_pop, pid_set}
use linux_net_x.Redis.{Hash, hdel_all}

-- What a job of the node worker ends in.
pub data Outcome : Type 0 where
  done skipped exited : Outcome
  raised : Error → Outcome

-- The process's own state, and the cleanup jobs that it has put on its queue.
pub record Proc : Type 0 where
  pub pids : Pids
  pub signaled : Bool
  pub removals : List (ℕ × String)

abbrev pub new_proc : List (ℕ × String) → Proc
new_proc removals = record { pids = []; signaled = false; removals = removals }

module _ (HS : Hash String) (HN : Hash NodeInfo) where
  -- `host_to_node_map`, `node_info_map`, and the queues whose workers are told to shut down.
  pub record Store : Type 0 where
    pub hosts : HS.Table
    pub nodes : HN.Table
    pub shutdowns : List String

  -- The hosts that `host_to_node_map` gives to a node, by a full scan.
  unfoldable pub hosts_of : String → Store → List String
  hosts_of name s = map (λ e. e.0) (keep (λ e. str_eq e.1 name) (HS.hscan s.hosts))

  module _ (name : String) where
    -- `NodeWorker.add` once the lock is taken, in `hosts`: the process starts and the change is
    -- committed, or the lock is given back.
    unfoldable pub after_start :
        Option ℕ → String → NodeInfo → HS.Table → Proc → Store → Outcome × Proc × Store
    unfolding pid_set
    after_start none host info hosts p s =
        (raised start_failed, p, record s { hosts = HS.hdel hosts host })
    after_start (some pid) host info hosts p s = (
      done,
      record p { pids = pid_set pid host p.pids },
      record s {
        hosts = hosts;
        nodes = HN.hset s.nodes name (record info { count = info.count + 1 });
      },
    )

    -- `NodeWorker.add`. `start` is what `Process.start` does: a pid, or `none` if it raises.
    unfoldable pub add : Option ℕ → String → Proc → Store → Outcome × Proc × Store
    unfolding after_start
    add start host p s =
        if any_of (λ e. str_eq e.1 host) p.pids
        then (skipped, p, s)
        else elim (HN.hget s.nodes name) [
          | none ↦ (exited, p, s)
          | some info ↦
              if leb info.capacity info.count
              then (raised node_preempted, p, s)
              else let (hosts, fresh) = HS.hsetnx s.hosts host name in
                if fresh
                then after_start start host info hosts p s
                else (raised host_already_pinned, p, record s { hosts = hosts })
        ]

    -- `NodeWorker.remove`, called for an exited child: the clean-up is put on the node's queue.
    unfoldable pub remove : ℕ → Proc → Proc
    unfolding pid_get
    remove pid p = elim (pid_get pid p.pids) [
      | none ↦ p
      | some host ↦ record p { removals = p.removals ++ (pid, host) ∷ [] }
    ]

    -- A worker that is quitting ignores its children's exits.
    reap : Bool → ℕ → Proc → Proc
    unfolding remove
    reap true pid p = p
    reap false pid p = remove pid p

    -- `sigchld_handler`, for the pids that `waitpid` returns.
    unfoldable pub sigchld_handler : List ℕ → Proc → Proc
    unfolding reap
    sigchld_handler [] p = p
    sigchld_handler (pid ∷ exited_pids) p = sigchld_handler exited_pids (reap p.signaled pid p)

    -- `NodeWorker._remove`, run from the queue.
    unfoldable pub remove_job : ℕ → String → Proc → Store → Proc × Store
    unfolding pid_get pid_pop
    remove_job pid host p s = elim (pid_get pid p.pids) [
      | none ↦ (p, s)
      | some _ ↦
          let p' = record p { pids = pid_pop pid p.pids } in
          elim (HN.hget s.nodes name) [
            | none ↦ (p', s)
            | some info ↦ (
              p',
              record s {
                hosts = HS.hdel s.hosts host;
                nodes = HN.hset s.nodes name (record info { count = info.count - 1 });
              },
            )
          ]
    ]

    -- `NodeWorker.signaled_to_exit`, and `sigterm_sigint_handler`, which calls it. The stop of the rq
    -- worker that it asks for is the later clean-up.
    unfoldable pub signaled_to_exit : Proc → Proc
    signaled_to_exit p = record p { signaled = true }

    -- `NodeWorker.cleanup`
    unfoldable pub cleanup : Proc → Store → Proc × Store
    unfolding hdel_all
    cleanup p s =
        let keys_to_delete = map (λ e. e.1) p.pids in
        (
          record p { signaled = true },
          record {
            hosts = hdel_all HS s.hosts keys_to_delete;
            nodes = HN.hdel s.nodes name;
            shutdowns = s.shutdowns ++ keys_to_delete;
          },
        )

    -- The registration in `NodeWorker.listen`, by a new process: stale pins of the node go, and its
    -- record is overwritten.
    unfoldable pub register : ℕ → String → Store → Store
    unfolding hosts_of hdel_all
    register capacity queue s = record s {
      hosts = hdel_all HS s.hosts (hosts_of name s);
      nodes =
          HN.hset s.nodes name
            (record { hostname = name; count = 0; capacity = capacity; queue = queue });
    }

    -- `Manager._force_delete_node`
    unfoldable pub force_delete : Store → Store
    unfolding hosts_of hdel_all
    force_delete s =
        let keys_to_delete = hosts_of name s in
        record {
          hosts = hdel_all HS s.hosts keys_to_delete;
          nodes = HN.hdel s.nodes name;
          shutdowns = s.shutdowns ++ keys_to_delete;
        }
