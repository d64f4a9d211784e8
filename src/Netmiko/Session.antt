-- ===== src/Netmiko/Session.antt =====
-- The persistent session of `NetmikoDriver` (linux_net/plugins/drivers/netmiko/__init__.py). A
-- session is known by the arguments with which it was opened.
pub mod Reuse
use linux_net_x.Base.{
  ℕ, String, Bool, true, false, ◌&&◌, not, Option, none, some, List, [], ◌∷◌, ◌==◌, str_eq,
  if◌then◌else◌,
}
use linux_net_x.Nodes.{Result, ok, raise, assertion, start_failed}

-- `NetmikoConnectionArgs`; `other_args` stands for the fields that the class does not read.
pub record SessionArgs : Type 0 where
  pub host : String
  pub keepalive : Option ℕ
  pub other_args : String

same_keepalive : Option ℕ → Option ℕ → Bool
same_keepalive none none = true
same_keepalive (some n) (some m) = n == m
same_keepalive _ _ = false

pub same_args : SessionArgs → SessionArgs → Bool
unfolding same_keepalive
same_args a b =
    str_eq a.host b.host
    && same_keepalive a.keepalive b.keepalive
    && str_eq a.other_args b.other_args

-- `if conn_args.keepalive`
unfoldable pub is_kept : SessionArgs → Bool
is_kept a = elim a.keepalive [ none ↦ false | some n ↦ not (n == 0) ]

-- The class state, the session that the monitor thread watches, and the sessions closed so far.
pub record Persisted : Type 0 where
  pub persisted_session : Option SessionArgs
  pub persisted_conn_args : Option SessionArgs
  pub monitored : Option SessionArgs
  pub disconnected : List SessionArgs

-- `_set_persisted_session(None, …)` asserts that there are persisted arguments.
cleared : Option SessionArgs → Persisted → Result Persisted
unfolding is_kept
cleared none s = raise assertion
cleared (some a) s = ok (record s {
  persisted_session = none;
  persisted_conn_args = none;
  monitored = if is_kept a then none else s.monitored;
})

pub clear_persisted_session : Persisted → Result Persisted
unfolding cleared
clear_persisted_session s = cleared s.persisted_conn_args s

-- A monitor that runs is left alone.
start_monitor : Option SessionArgs → SessionArgs → Option SessionArgs
start_monitor (some watched) a = some watched
start_monitor none a = some a

pub set_persisted_session : SessionArgs → Persisted → Persisted
unfolding start_monitor
set_persisted_session a s = record s {
  persisted_session = some a;
  persisted_conn_args = some a;
  monitored = start_monitor s.monitored a;
}

abbrev is_same : Option SessionArgs → SessionArgs → Bool
is_same none a = false
is_same (some b) a = same_args b a

-- A session with other arguments is closed; an exception of that is only logged.
pub checked_session : Option SessionArgs → SessionArgs → Persisted → Result Persisted
unfolding clear_persisted_session
checked_session none a s = ok s
checked_session (some session) a s =
    if is_same s.persisted_conn_args a
    then ok s
    else clear_persisted_session (record s { disconnected = session ∷ s.disconnected })

pub get_persisted_session : SessionArgs → Persisted → Result Persisted
unfolding checked_session
get_persisted_session a s = checked_session s.persisted_session a s

-- `opens` is whether `ConnectHandler` succeeds.
connect_with :
    Bool → SessionArgs → Option SessionArgs → Persisted → Result (SessionArgs × Persisted)
unfolding set_persisted_session
connect_with opens a (some session) s = ok (session, s)
connect_with opens a none s =
    if opens
    then ok (a, (if is_kept a then set_persisted_session a s else s))
    else raise start_failed

connect_after : Bool → SessionArgs → Result Persisted → Result (SessionArgs × Persisted)
unfolding connect_with
connect_after opens a (raise e) = raise e
connect_after opens a (ok s) = connect_with opens a s.persisted_session s

pub connect_session : Bool → SessionArgs → Persisted → Result (SessionArgs × Persisted)
unfolding connect_after get_persisted_session
connect_session opens a s = connect_after opens a (get_persisted_session a s)

-- The `finally` block runs whether or not the session's own disconnection raises.
pub disconnect_session : SessionArgs → SessionArgs → Bool → Persisted → Result Persisted
unfolding clear_persisted_session is_kept
disconnect_session a session reset s =
    if is_kept a && not reset
    then ok s
    else clear_persisted_session (record s { disconnected = session ∷ s.disconnected })
