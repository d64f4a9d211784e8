-- ===== src/Paramiko/Session.antt =====
-- The persistent connection of `ParamikoDriver` (linux_net/plugins/drivers/paramiko/__init__.py):
-- `connect`, `disconnect`, `_get_persisted_session` and `_set_persisted_session`, and the start and
-- stop of the monitor thread. A session is a number; whether its transport is active is state.
pub mod Safety
use linux_net_x.Base.{
  ℕ, ◌+◌, String, Bool, true, false, ◌&&◌, not, Option, none, some, ◌==◌, str_eq, if◌then◌else◌,
}

-- What the code reads of `ParamikoConnectionArgs`. `keepalive` counts if it is given and not 0.
pub record ConnArgs : Type 0 where
  pub host : String
  pub username : String
  pub keepalive : Option ℕ

abbrev pub keeps : ConnArgs → Bool
keeps a = elim a.keepalive [ none ↦ false | some t ↦ not (t == 0) ]

-- The class variables, and the sessions: how many there have been, which have an active transport,
-- and the arguments that each was opened with.
pub record Driver : Type 0 where
  pub persisted_session : Option ℕ
  pub persisted_conn_args : Option ConnArgs
  pub monitored : Option ℕ
  pub opened : ℕ
  pub active : ℕ → Bool
  pub opened_with : ℕ → ConnArgs

-- `session.close()`, and the loss of a connection.
unfoldable pub close : ℕ → Driver → Driver
close session d = record d { active = λ k. if k == session then false else d.active k }

-- `_set_persisted_session(None, None)`; the monitor stops if the old arguments have a keepalive.
unfoldable pub clear_persisted : Driver → Driver
clear_persisted d = record d {
  persisted_session = none;
  persisted_conn_args = none;
  monitored = elim d.persisted_conn_args [
    | none ↦ d.monitored
    | some a ↦ if keeps a then none else d.monitored
  ];
}

-- `_start_monitor_thread`: nothing happens if one is running.
unfoldable pub start_monitor_thread : ℕ → Option ℕ → Option ℕ
start_monitor_thread session none = some session
start_monitor_thread session (some other) = some other

-- The monitor thread ends by itself when its session is unhealthy or a deep check fails; it only asks
-- its process to terminate, and leaves the session persisted.
unfoldable pub end_monitor : Driver → Driver
end_monitor d = record d { monitored = none }

-- `_set_persisted_session(session, conn_args)`
unfoldable pub set_persisted : ℕ → ConnArgs → Driver → Driver
unfolding start_monitor_thread
set_persisted session a d = record d {
  persisted_session = some session;
  persisted_conn_args = some a;
  monitored = if keeps a then start_monitor_thread session d.monitored else d.monitored;
}

check_persisted : ConnArgs → Option ℕ → Option ConnArgs → Driver → Option ℕ × Driver
unfolding clear_persisted close
check_persisted a (some session) (some old) d =
    if not (str_eq old.host a.host)
    then (none, clear_persisted (close session d))
    else if not (d.active session)
    then (none, clear_persisted d)
    else (some session, d)
check_persisted a none (some old) d = (none, d)
check_persisted a found none d = (found, d)

-- `_get_persisted_session`
unfoldable pub get_persisted : ConnArgs → Driver → Option ℕ × Driver
unfolding check_persisted
get_persisted a d = check_persisted a d.persisted_session d.persisted_conn_args d

-- A new connection, directly or by a proxy.
unfoldable pub open_session : ConnArgs → Driver → ℕ × Driver
open_session a d = (
  d.opened,
  record d {
    opened = d.opened + 1;
    active = λ k. if k == d.opened then true else d.active k;
    opened_with = λ k. if k == d.opened then a else d.opened_with k;
  },
)

connect_anew : ConnArgs → Driver → ℕ × Driver
unfolding open_session set_persisted
connect_anew a d =
    let r = open_session a d in (r.0, if keeps a then set_persisted r.0 a r.1 else r.1)

connect_with : ConnArgs → Option ℕ × Driver → ℕ × Driver
connect_with a (some session, d) = (session, d)
connect_with a (none, d) = connect_anew a d

-- `connect`, where the connection can be made: the session, and the state.
unfoldable pub connect : ConnArgs → Driver → ℕ × Driver
unfolding get_persisted connect_with connect_anew
connect a d = connect_with a (get_persisted a d)

-- `disconnect`
unfoldable pub disconnect : ConnArgs → Bool → ℕ → Driver → Driver
unfolding close clear_persisted
disconnect a reset session d =
    if keeps a && not reset
    then d
    else (let d' = close session d in if keeps a then clear_persisted d' else d')
