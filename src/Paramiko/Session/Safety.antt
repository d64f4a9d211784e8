-- ===== src/Paramiko/Session/Safety.antt =====
-- Over any sequence of requests and lost connections.
use linux_net_x.Base.{
  ℕ, ◌<◌, ◌≡◌, refl, sym, ap, ◌∙◌, subst, ◌⊎◌, inl, inr, Bool, true, ◌&&◌, not, Option, none, some,
  ◌==◌, str_eq, eq_iff, if◌then◌else◌, arith, Bool-cases,
}
use linux_net_x.Paramiko.Session.{
  ConnArgs, keeps, Driver, close, clear_persisted, start_monitor_thread, end_monitor, set_persisted,
  check_persisted, get_persisted, open_session, connect_anew, connect_with, connect, disconnect,
}

-- The persisted session is one that was opened with the persisted arguments, which have a
-- keepalive, and a monitor that runs watches it.
abbrev pub Coherent : Option ℕ → Option ConnArgs → Option ℕ → ℕ → (ℕ → ConnArgs) → Type 0
Coherent none none monitored opened with_args = monitored ≡ none
Coherent (some session) (some a) monitored opened with_args =
    (session < opened)
    × (with_args session ≡ a)
    × (keeps a ≡ true)
    × ((monitored ≡ some session) ⊎ (monitored ≡ none))
Coherent none (some a) monitored opened with_args = ⊥
Coherent (some session) none monitored opened with_args = ⊥

pub record IsSound (d : Driver) : Type 0 where
  pub coherent :
      Coherent d.persisted_session d.persisted_conn_args d.monitored d.opened d.opened_with

-- Nothing is persisted.
pub record IsCleared (d : Driver) : Type 0 where
  pub no_session : d.persisted_session ≡ none
  pub no_args : d.persisted_conn_args ≡ none
  pub no_monitor : d.monitored ≡ none

close-IsSound : (session : ℕ) (d : Driver) → IsSound d → IsSound (close session d)
unfolding close
close-IsSound session d v = record { coherent = v.coherent }

monitor_stops :
    (s : Option ℕ) (a : Option ConnArgs) (m : Option ℕ) (n : ℕ) (f : ℕ → ConnArgs)
    → Coherent s a m n f
    → (elim a as (λ _. Option ℕ) [ none ↦ m | some b ↦ if keeps b then none else m ]) ≡ none
monitor_stops none none m n f v = v
monitor_stops (some k) (some b) m n f (_, _, kept, _) = rw kept refl
monitor_stops none (some b) m n f v = absurd v
monitor_stops (some k) none m n f v = absurd v

clear_persisted-IsCleared : (d : Driver) → IsSound d → IsCleared (clear_persisted d)
unfolding clear_persisted
clear_persisted-IsCleared d v = record {
  no_session = refl;
  no_args = refl;
  no_monitor =
      monitor_stops d.persisted_session d.persisted_conn_args d.monitored d.opened d.opened_with
        v.coherent;
}

IsCleared-IsSound : (d : Driver) → IsCleared d → IsSound d
IsCleared-IsSound d c = record {
  coherent =
      subst (λ s. Coherent s d.persisted_conn_args d.monitored d.opened d.opened_with)
        (sym c.no_session)
        (subst (λ a. Coherent none a d.monitored d.opened d.opened_with) (sym c.no_args)
          c.no_monitor);
}

-- A session that may serve `a`: its transport is active, and it was opened to the same host.
abbrev pub Serves : ConnArgs → ℕ → Driver → Type 0
Serves a session d = (d.active session ≡ true) × ((d.opened_with session).host ≡ a.host)

abbrev Checked : ConnArgs → Option ℕ × Driver → Type 0
Checked a r =
    ((r.0 ≡ none) × IsCleared r.1)
    ⊎ ((session : ℕ) × (r.0 ≡ some session) × IsSound r.1 × Serves a session r.1)

check_persisted-Checked :
    (a : ConnArgs) (s : Option ℕ) (b : Option ConnArgs) (d : Driver)
    → d.persisted_session ≡ s
    → d.persisted_conn_args ≡ b
    → Coherent s b d.monitored d.opened d.opened_with
    → IsSound d
    → Checked a (check_persisted a s b d)
unfolding check_persisted
check_persisted-Checked a none none d es eb m v =
    inl (refl, record { no_session = es; no_args = eb; no_monitor = m })
check_persisted-Checked a none (some b) d es eb m v = absurd m
check_persisted-Checked a (some s) none d es eb m v = absurd m
check_persisted-Checked a (some s) (some b) d es eb (lt, same, kept, watched) v =
    elim (Bool-cases (str_eq b.host a.host)) [
      | inr e ↦ rw e (inl (refl, clear_persisted-IsCleared (close s d) (close-IsSound s d v)))
      | inl e ↦ rw e (elim (Bool-cases (d.active s)) [
        | inr f ↦ rw f (inl (refl, clear_persisted-IsCleared d v))
        | inl f ↦
            rw f (
              inr
                (s, refl, v, (f, ap (λ (x : ConnArgs). x.host) same ∙ (eq_iff b.host a.host).0 e)))
      ])
    ]

connect_anew-IsSound :
    (a : ConnArgs) (d : Driver)
    → IsCleared d
    → let r = connect_anew a d in IsSound r.1 × Serves a r.0 r.1
unfolding connect_anew open_session set_persisted start_monitor_thread
connect_anew-IsSound a d c =
    let itself : (d.opened == d.opened) ≡ true = ground arith in
    let serves : Serves a d.opened (open_session a d).1 = (rw itself refl, rw itself refl) in
    elim (Bool-cases (keeps a)) [
      | inl e ↦ rw e (
        record {
          coherent = (
            omega arith,
            rw itself refl,
            e,
            inl (ap (start_monitor_thread d.opened) c.no_monitor),
          );
        },
        serves,
      )
      | inr e ↦ rw e (
        IsCleared-IsSound _
            (record { no_session = c.no_session; no_args = c.no_args; no_monitor = c.no_monitor }),
        serves,
      )
    ]

connect_with-IsSound :
    (a : ConnArgs) (r : Option ℕ × Driver)
    → Checked a r
    → let x = connect_with a r in IsSound x.1 × Serves a x.0 x.1
unfolding connect_with
connect_with-IsSound a (none, d) (inl (e, c)) = connect_anew-IsSound a d c
connect_with-IsSound a (some s, d) (inl (e, c)) = cc
connect_with-IsSound a (none, d) (inr (t, e, v, w)) = cc
connect_with-IsSound a (some s, d) (inr (t, e, v, w)) =
    let q : t ≡ s = cc in (v, subst (λ k. Serves a k d) q w)

connect-IsSound :
    (a : ConnArgs) (d : Driver) → IsSound d → let r = connect a d in IsSound r.1 × Serves a r.0 r.1
unfolding connect get_persisted
connect-IsSound a d v =
    connect_with-IsSound a _
      (check_persisted-Checked a d.persisted_session d.persisted_conn_args d refl refl v.coherent v)

disconnect-IsSound :
    (a : ConnArgs) (reset : Bool) (s : ℕ) (d : Driver)
    → IsSound d
    → IsSound (disconnect a reset s d)
unfolding disconnect
disconnect-IsSound a reset s d v = elim (Bool-cases (keeps a && not reset)) [
  | inl e ↦ rw e v
  | inr e ↦ rw e (elim (Bool-cases (keeps a)) [
    | inl f ↦
        rw f (IsCleared-IsSound _ (clear_persisted-IsCleared (close s d) (close-IsSound s d v)))
    | inr f ↦ rw f (close-IsSound s d v)
  ])
]

end_monitor-IsSound : (d : Driver) → IsSound d → IsSound (end_monitor d)
unfolding end_monitor
end_monitor-IsSound d v = record {
  coherent = unwatched d.persisted_session d.persisted_conn_args v.coherent;
}
  where
    unwatched :
        (s : Option ℕ) (a : Option ConnArgs)
        → Coherent s a d.monitored d.opened d.opened_with
        → Coherent s a none d.opened d.opened_with
    unwatched none none c = refl
    unwatched (some k) (some b) (lt, same, kept, watched) = (lt, same, kept, inr refl)
    unwatched none (some b) c = absurd c
    unwatched (some k) none c = absurd c

-- What may happen to a driver: a connection is made, one is closed after its use, one is lost, and
-- the monitor ends after a check that fails.
pub data Step : Driver → Driver → Type 0 where
  start : (a : ConnArgs) (d : Driver) → Step d (connect a d).1
  finish :
      (a : ConnArgs) (reset : Bool) (session : ℕ) (d : Driver)
      → Step d (disconnect a reset session d)
  lose : (session : ℕ) (d : Driver) → Step d (close session d)
  fail_check : (d : Driver) → Step d (end_monitor d)

pub data Reach (d : Driver) : Driver → Type 0 where
  here : Reach d d
  next : {e f : Driver} → Reach d e → Step e f → Reach d f

Step-IsSound : {d e : Driver} → Step d e → IsSound d → IsSound e
Step-IsSound (start a d) v = (connect-IsSound a d v).0
Step-IsSound (finish a reset session d) v = disconnect-IsSound a reset session d v
Step-IsSound (lose session d) v = close-IsSound session d v
Step-IsSound (fail_check d) v = end_monitor-IsSound d v

Reach-IsSound : {d e : Driver} → Reach d e → IsSound d → IsSound e
Reach-IsSound here v = v
Reach-IsSound (next r s) v = Step-IsSound s (Reach-IsSound r v)

-- From a driver with nothing persisted, over any connections made, closed and lost, and monitors
-- that end after a failed check: a session is persisted with the arguments that it was opened with,
-- which have a keepalive, and no monitor watches another one; or nothing is persisted or watched. A
-- next connection gives a session with an active transport to the host asked for, and leaves a
-- driver of this kind.
pub Reach-Serves :
    (d e : Driver) (a : ConnArgs)
    → IsCleared d
    → Reach d e
    → IsSound e × IsSound (connect a e).1 × Serves a (connect a e).0 (connect a e).1
Reach-Serves d e a c r =
    let v = Reach-IsSound r (IsCleared-IsSound d c) in
    (v, (connect-IsSound a e v).0, (connect-IsSound a e v).1)

-- A persisted session with an active transport is handed out for its host whoever asks: the
-- username of the request is not compared with the one that the session was opened for.
pub connect_as_other_user :
    (d : Driver) (session : ℕ) (old a : ConnArgs)
    → d.persisted_session ≡ some session
    → d.persisted_conn_args ≡ some old
    → d.active session ≡ true
    → old.host ≡ a.host
    → connect a d ≡ (session, d)
unfolding connect get_persisted check_persisted connect_with
connect_as_other_user d session old a es ea up same =
    let e : str_eq old.host a.host ≡ true = (eq_iff old.host a.host).1 same in
    let found : check_persisted a (some session) (some old) d ≡ (some session, d) =
      rw (e, up) refl in
    ap (connect_with a) (
      ap (λ s. check_persisted a s d.persisted_conn_args d) es
      ∙ ap (λ b. check_persisted a (some session) b d) ea
      ∙ found)
