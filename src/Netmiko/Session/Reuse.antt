-- ===== src/Netmiko/Session/Reuse.antt =====
-- Which session a request is given, and what its disconnection does.
use linux_net_x.Base.{
  ℕ, ◌≡◌, ◌∙◌, refl, sym, ap, subst, inl, inr, Bool, true, false, Option, none, some, List, ◌∷◌,
  eq_iff, arith, Bool-cases,
}
use linux_net_x.Nodes.{Result, ok, raise, assertion}
use linux_net_x.Netmiko.Session.{
  SessionArgs, same_keepalive, same_args, is_kept, Persisted, cleared, clear_persisted_session,
  start_monitor, set_persisted_session, checked_session, get_persisted_session, connect_with,
  connect_after, connect_session, disconnect_session,
}

same_keepalive-true : (a b : Option ℕ) → same_keepalive a b ≡ true → a ≡ b
unfolding same_keepalive
same_keepalive-true none none h = refl
same_keepalive-true (some n) (some m) h = let e : n ≡ m = ground arith in ap some e
same_keepalive-true _ _ h = cc

same_args-true : (a b : SessionArgs) → same_args a b ≡ true → a ≡ b
unfolding same_args
same_args-true a b h =
    let e : a.host ≡ b.host = (eq_iff _ _).0 (ground arith) in
    let f = same_keepalive-true a.keepalive b.keepalive (ground arith) in
    let g : a.other_args ≡ b.other_args = (eq_iff _ _).0 (ground arith) in
    λ i. record { host = e i; keepalive = f i; other_args = g i }

-- Nothing is persisted, or one session that is kept alive, with its arguments, and watched.
pub data Holds : Persisted → Type 0 where
  nothing :
      (closed : List SessionArgs)
      → Holds (record {
        persisted_session = none;
        persisted_conn_args = none;
        monitored = none;
        disconnected = closed;
      })
  one :
      (a : SessionArgs) (closed : List SessionArgs)
      → is_kept a ≡ true
      → Holds (record {
        persisted_session = some a;
        persisted_conn_args = some a;
        monitored = some a;
        disconnected = closed;
      })

-- What a look at the persisted session leaves for a request.
data Checked (a : SessionArgs) : Result Persisted → Type 0 where
  none_kept :
      (closed : List SessionArgs)
      → Checked a (
          ok (record {
            persisted_session = none;
            persisted_conn_args = none;
            monitored = none;
            disconnected = closed;
          }))
  same_kept :
      (closed : List SessionArgs)
      → is_kept a ≡ true
      → Checked a (
          ok (record {
            persisted_session = some a;
            persisted_conn_args = some a;
            monitored = some a;
            disconnected = closed;
          }))

get_persisted_session-Checked :
    (a : SessionArgs) (s : Persisted) → Holds s → Checked a (get_persisted_session a s)
unfolding get_persisted_session checked_session clear_persisted_session cleared
get_persisted_session-Checked a s (nothing closed) = none_kept closed
get_persisted_session-Checked a s (one b closed k) = elim (Bool-cases (same_args b a)) [
  | inl e ↦
      let p = same_args-true b a e in
      rw e (
        subst
          (λ x. Checked a (
            ok (record {
              persisted_session = some x;
              persisted_conn_args = some x;
              monitored = some x;
              disconnected = closed;
            })))
          (sym p) (same_kept closed (subst (λ x. is_kept x ≡ true) p k)))
  | inr e ↦ rw e (rw k (none_kept (b ∷ closed)))
]

-- A connection: the session that it gives, and what is persisted after it. What is not to be kept
-- leaves nothing persisted.
pub record Serves (a session : SessionArgs) (s : Persisted) : Type 0 where
  pub own : session ≡ a
  pub holds : Holds s
  pub unkept : is_kept a ≡ false → s.persisted_conn_args ≡ none

abbrev Connection : Type 0
Connection = Result (SessionArgs × Persisted)

connect_after-Serves :
    (opens : Bool) (a session : SessionArgs) (x : Result Persisted) (s : Persisted)
    → Checked a x
    → connect_after opens a x ≡ ok (session, s)
    → Serves a session s
unfolding connect_after connect_with set_persisted_session start_monitor
connect_after-Serves opens a session x s (same_kept closed k) h =
    let kept : Persisted = record {
      persisted_session = some a;
      persisted_conn_args = some a;
      monitored = some a;
      disconnected = closed;
    } in
    let p : a ≡ session = cc in
    let q : kept ≡ s = cc in
    record {
      own = sym p;
      holds = subst Holds q (one a closed k);
      unkept = λ e. let f : true ≡ false = sym k ∙ e in cc;
    }
connect_after-Serves false a session x s (none_kept closed) h = cc
connect_after-Serves true a session x s (none_kept closed) h = elim (Bool-cases (is_kept a)) [
  | inl e ↦ opened_kept e (rw e at h)
  | inr e ↦ opened_unkept e (rw e at h)
]
  where
    bare : Persisted
    bare = record {
      persisted_session = none;
      persisted_conn_args = none;
      monitored = none;
      disconnected = closed;
    }

    opened_kept :
        is_kept a ≡ true
        → ◌≡◌ {A = Connection} (ok (a, set_persisted_session a bare)) (ok (session, s))
        → Serves a session s
    opened_kept e k =
        let p : a ≡ session = cc in
        let q : set_persisted_session a bare ≡ s = cc in
        record {
          own = sym p;
          holds = subst Holds q (one a closed e);
          unkept = λ f. let g : true ≡ false = sym e ∙ f in cc;
        }

    opened_unkept :
        is_kept a ≡ false
        → ◌≡◌ {A = Connection} (ok (a, bare)) (ok (session, s))
        → Serves a session s
    opened_unkept e k =
        let p : a ≡ session = cc in
        let q : bare ≡ s = cc in
        record {
          own = sym p;
          holds = subst Holds q (nothing closed);
          unkept = λ f. ap (λ y. y.persisted_conn_args) (sym q);
        }

-- A request is given a session that was opened with its own arguments, kept or new, and at most one
-- session is kept afterwards, with its arguments and its monitor.
pub connect_session-Serves :
    (opens : Bool) (a session : SessionArgs) (s s' : Persisted)
    → Holds s
    → connect_session opens a s ≡ ok (session, s')
    → Serves a session s'
unfolding connect_session
connect_session-Serves opens a session s s' h e =
    connect_after-Serves opens a session (get_persisted_session a s) s'
      (get_persisted_session-Checked a s h) e

-- The disconnection of a session that is not to be kept raises an AssertionError, whatever was
-- persisted before its connection.
pub disconnect_session_raises :
    (opens reset : Bool) (a session : SessionArgs) (s s' : Persisted)
    → Holds s
    → is_kept a ≡ false
    → connect_session opens a s ≡ ok (session, s')
    → disconnect_session a session reset s' ≡ raise assertion
unfolding disconnect_session clear_persisted_session
disconnect_session_raises opens reset a session s s' h k e =
    let v = connect_session-Serves opens a session s s' h e in rw k (rw (v.unkept k) refl)
