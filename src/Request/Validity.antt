-- ===== src/Request/Validity.antt =====
-- What a request that passes validation satisfies.
use linux_net_x.Base.{
  sym, subst, ℕ, ◌≡◌, refl, ◌↔◌, ap, ◌∙◌, true, false, ◌&&◌, ◌||◌, not, Option, none, some, arith,
}
use linux_net_x.Nodes.{Result, ok, raise, ◌>>=◌}
use linux_net_x.Manager.Dispatch.{QueueStrategy, fifo, pinned}
use linux_net_x.Request.{
  Request, is_some, is_paramiko, is_netmiko, is_dict, valid_payload, check_detach_args,
  check_file_transfer_args, check_exclusive_fields, check_payload_type, strategy_of, keepalive_of,
  infer_defaults, validate,
}

-- The rules that the validators state, as one predicate.
pub record IsValid (r : Request) : Type 0 where
  pub pushes_detached : is_some r.push_interval ≡ true → r.detach ≡ true
  pub detached_on_paramiko : r.detach ≡ true → is_paramiko r.driver ≡ true
  pub transfers : r.file_transfer ≡ true → (is_paramiko r.driver || is_netmiko r.driver) ≡ true
  pub exclusive : (is_some r.config && is_some r.command) ≡ false
  pub actionable :
      (is_some r.config
        || is_some r.command
        || r.file_transfer
        || r.driver_args
        || r.staged_file_id)
      ≡ true
  pub rendered : is_dict (valid_payload r) ≡ true → r.rendering ≡ true

-- The request that `infer_defaults` leaves.
abbrev pub with_defaults : Request → Request
with_defaults r =
    let strategy = strategy_of r.queue_strategy r in
    record r { queue_strategy = some strategy; keepalive = keepalive_of strategy r.keepalive }

bind_ok :
    (m : Result Request) (f : Request → Result Request) (x : Request)
    → (m >>= f) ≡ ok x
    → (y : Request) × (m ≡ ok y) × (f y ≡ ok x)
bind_ok (ok y) f x e = (y, refl, e)
bind_ok (raise _) f x e = cc

validate_valid : (r : Request) → IsValid r → validate r ≡ ok (with_defaults r)
unfolding validate check_detach_args check_file_transfer_args check_exclusive_fields
    check_payload_type infer_defaults
validate_valid r v =
    let a : (is_some r.push_interval && not r.detach) ≡ false = ground (arith, v.pushes_detached) in
    let b : (r.detach && not (is_paramiko r.driver)) ≡ false =
      ground (arith, v.detached_on_paramiko) in
    let t : (r.file_transfer && not (is_paramiko r.driver || is_netmiko r.driver)) ≡ false =
      ground (arith, v.transfers) in
    let x : (is_some r.config && is_some r.command) ≡ false = v.exclusive in
    let n : (not (is_some r.config)
          && not (is_some r.command)
          && not (r.file_transfer || r.driver_args || r.staged_file_id))
        ≡ false =
      ground (arith, v.actionable) in
    let d : (is_dict (valid_payload r) && not r.rendering) ≡ false = ground (arith, v.rendered) in
    rw (a, b, t, x, n, d) refl

detach_rules :
    (r y : Request)
    → check_detach_args r ≡ ok y
    → (y ≡ r)
      × (is_some r.push_interval ≡ true → r.detach ≡ true)
      × (r.detach ≡ true → is_paramiko r.driver ≡ true)
unfolding check_detach_args
detach_rules r y e = (ground arith, ground arith, ground arith)

transfer_rules :
    (r y : Request)
    → check_file_transfer_args r ≡ ok y
    → (y ≡ r) × (r.file_transfer ≡ true → (is_paramiko r.driver || is_netmiko r.driver) ≡ true)
unfolding check_file_transfer_args
transfer_rules r y e = (ground arith, ground arith)

exclusive_rules :
    (r y : Request)
    → check_exclusive_fields r ≡ ok y
    → (y ≡ r)
      × ((is_some r.config && is_some r.command) ≡ false)
      × ((is_some r.config
            || is_some r.command
            || r.file_transfer
            || r.driver_args
            || r.staged_file_id)
          ≡ true)
unfolding check_exclusive_fields
exclusive_rules r y e = (ground arith, ground arith, ground arith)

payload_rules :
    (r y : Request)
    → check_payload_type r ≡ ok y
    → (y ≡ r) × (is_dict (valid_payload r) ≡ true → r.rendering ≡ true)
unfolding check_payload_type
payload_rules r y e = (ground arith, ground arith)

validate-IsValid : (r x : Request) → validate r ≡ ok x → IsValid r
unfolding validate
validate-IsValid r x e =
    let (d, e4, _) = bind_ok _ infer_defaults x e in
    let (c, e3, e4') = bind_ok _ check_payload_type d e4 in
    let (b, e2, e3') = bind_ok _ check_exclusive_fields c e3 in
    let (a, e1, e2') = bind_ok _ check_file_transfer_args b e2 in
    let (sa, pushes, paramiko_only) = detach_rules r a e1 in
    let (sb, transfers) =
      transfer_rules r b (subst (λ z. check_file_transfer_args z ≡ ok b) sa e2') in
    let (sc, exclusive, actionable) =
      exclusive_rules r c (subst (λ z. check_exclusive_fields z ≡ ok c) sb e3') in
    let (sd, rendered) = payload_rules r d (subst (λ z. check_payload_type z ≡ ok d) sc e4') in
    record {
      pushes_detached = pushes;
      detached_on_paramiko = paramiko_only;
      transfers = transfers;
      exclusive = exclusive;
      actionable = actionable;
      rendered = rendered;
    }

with_defaults-IsValid : (r : Request) → IsValid r → IsValid (with_defaults r)
with_defaults-IsValid r v = record {
  pushes_detached = v.pushes_detached;
  detached_on_paramiko = v.detached_on_paramiko;
  transfers = v.transfers;
  exclusive = v.exclusive;
  actionable = v.actionable;
  rendered = v.rendered;
}

keepalive_once :
    (s : QueueStrategy) (k : Option ℕ) → keepalive_of s (keepalive_of s k) ≡ keepalive_of s k
unfolding keepalive_of
keepalive_once fifo k = refl
keepalive_once pinned none = refl
keepalive_once pinned (some t) = refl

completed_once : (r : Request) → with_defaults (with_defaults r) ≡ with_defaults r
unfolding strategy_of
completed_once r =
    let s = strategy_of r.queue_strategy r in
    ap (λ (k : Option ℕ). record r { queue_strategy = some s; keepalive = k })
      (keepalive_once s r.keepalive)

-- Validation accepts exactly the requests that keep the rules, and what it returns is the request
-- with its defaults filled in.
pub validate_iff : (r x : Request) → (validate r ≡ ok x) ↔ (IsValid r × (x ≡ with_defaults r))
validate_iff r x = (
  λ e.
      let v = validate-IsValid r x e in
      (v, ok_inj x (with_defaults r) (sym e ∙ validate_valid r v)),
  λ p. validate_valid r p.0 ∙ ap ok (sym p.1),
)
  where
    ok_inj : (a b : Request) → ok a ≡ ok b → a ≡ b
    ok_inj a b e = cc

-- Validating a validated request again accepts it and changes nothing.
pub validate_twice : (r x : Request) → validate r ≡ ok x → validate x ≡ ok x
validate_twice r x e =
    let (v, same) = (validate_iff r x).0 e in
    (validate_iff x x).1 (
      subst IsValid (sym same) (with_defaults-IsValid r v),
      subst (λ z. z ≡ with_defaults z) (sym same) (sym (completed_once r)),
    )
