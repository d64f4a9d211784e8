-- ===== src/Examples/Secrets.antt =====
-- Two processes that read one secret, which changes after five seconds.
use linux_net_x.Base.{
  ℕ, ◌+◌, String, ◌≡◌, refl, sym, subst, inl, inr, true, Option, none, some, List, [], ◌∷◌, ltb,
  str_eq, eq_iff, if◌then◌else◌, arith, Bool-cases,
}
use linux_net_x.Nodes.{ok}
use linux_net_x.Credentials.Vault.Settings.{
  VaultKvConfig, VaultCredentialSettings, is_set, is_allowed_path, has_prefix_in, full_path, strip,
}
use linux_net_x.Credentials.Vault.Cache.{
  Secret, Params, Expiring, seconds, ns_of, redis_key, read_secret,
}
use linux_net_x.Credentials.Vault.Provider.{Hvac, ConnectionArgs, model_copy, resolve}
use linux_net_x.Credentials.Vault.Provider.Resolution.{Resolved, resolve-Resolved}
use linux_net_x.Credentials.Vault.Cache.Freshness.{Expires, HeldUntil}
use linux_net_x.Credentials.Vault.Cache.Processes.{
  Memories, Reach, start, waits, reads, read_secret-HeldUntil, read_secret_answers,
}

abbrev str_of : ℕ → String
str_of n = "1"

-- Keys with their times, the newest first.
abbrev Table : Type 0
Table = List (String × (ℕ × Secret))

unfoldable get_key : ℕ → String → Table → Option Secret
get_key now j [] = none
get_key now j ((key, (limit, s)) ∷ rest) =
    let other = get_key now j rest in
    if str_eq j key then (if ltb now limit then some s else none) else other

abbrev redis : Expiring
redis = record {
  Keys = Table;
  get = λ now key keys. some (get_key now key keys);
  setex = λ now key ttl s keys. some ((key, (now + seconds ttl, s)) ∷ keys);
}

redis-Expires : Expires redis
unfolding get_key
redis-Expires now later key j ttl s t keys keys' e g =
    let p : (key, (now + seconds ttl, s)) ∷ keys ≡ keys' = cc in
    let h : redis.get later j ((key, (now + seconds ttl, s)) ∷ keys) ≡ some (some t) =
      subst (λ k. redis.get later j k ≡ some (some t)) (sym p) g in
    elim (Bool-cases (str_eq j key)) [
      | inr q ↦ inr (rw q at h)
      | inl q ↦ elim (Bool-cases (ltb later (now + seconds ttl))) [
        | inl l ↦
            let h' : some (some s) ≡ some (some t) = rw (q, l) at h in
            inl ((eq_iff j key).0 q, cc, ground arith)
        | inr l ↦ let h' : some none ≡ some (some t) = rw (q, l) at h in cc
      ]
    ]

abbrev old_secret : Secret
old_secret = ("password", some "old") ∷ []

abbrev new_secret : Secret
new_secret = ("password", some "new") ∷ []

abbrev vault : ℕ → Params → Option Secret
vault now p = if ltb now (seconds 5) then some old_secret else some new_secret

abbrev params : Params
params = record { namespace = none; mount = "kv"; ref = "router"; version = none }

abbrev ttl : ℕ
ttl = 30

fresh : (later : ℕ) (key : String) (t : Secret) → redis.get later key [] ≡ some (some t) → ⊥
unfolding get_key
fresh later key t e = cc

-- Process 0 reads the secret at once, and process 1 after 29 seconds; 9 seconds pass.
reached : (ms : Memories) × (keys : Table) × Reach str_of redis vault ttl (seconds 38) ms keys
reached = (
  _,
  _,
  waits (seconds 38) (omega arith)
      (reads 1 params (waits (seconds 29) (omega arith) (reads 0 params (start [] fresh)))),
)

-- The TTL of the secret is 30 seconds, and it changed after 5.
read_secret-HeldUntil_example :
    HeldUntil str_of redis vault ttl
      (seconds 38)
      (redis_key str_of params)
      (seconds 38 + 1)
      old_secret
unfolding reached read_secret get_key
read_secret-HeldUntil_example =
    read_secret-HeldUntil str_of redis vault ttl redis-Expires 1 params old_secret reached.2 refl

-- A Redis that never answers.
abbrev broken : Expiring
broken = record { Keys = Unit; get = λ now key keys. none; setex = λ now key ttl s keys. none }

read_secret_answers_example :
    (secret : Secret) × ((read_secret str_of broken vault ttl 0 params (λ q. none, tt)).0
      ≡ ok secret)
read_secret_answers_example =
    read_secret_answers str_of broken vault ttl 0 params ("password", some "old") [] refl
      (λ q. none) tt

-- Two namespaces with one key in Redis.
same_redis_key :
    redis_key str_of (record params { namespace = some "default" }) ≡ redis_key str_of params
unfolding redis_key ns_of is_set
same_redis_key = refl

abbrev client_config : VaultKvConfig
client_config = record {
  addr = some "http://vault:8200";
  token = some "t";
  role_id = none;
  secret_id = none;
  namespace = none;
  allowed_paths = "kv/net" ∷ [];
  cache_ttl = ttl;
}

abbrev settings : String → VaultCredentialSettings
settings path = record {
  ref = path;
  mount = "kv";
  version = none;
  namespace = none;
  field_mapping = ("password", "password") ∷ [];
}

-- The prefix of an allowed path need not end where a name ends.
sibling_is_allowed : is_allowed_path client_config (settings "network") ≡ true
unfolding is_allowed_path full_path strip has_prefix_in
sibling_is_allowed = refl

abbrev hvac : Hvac
hvac = record {
  Client = Unit;
  connect = λ token namespace. tt;
  is_authenticated = λ client. true;
  login = λ role secret client. none;
  read = λ client. vault;
}

abbrev no_args : ConnectionArgs
no_args field = none

abbrev with_old_password : ConnectionArgs
with_old_password = model_copy no_args (("password", "old") ∷ [])

resolve-Resolved_example :
    Resolved hvac str_of broken client_config
      (settings "net/r1")
      no_args
      0
      (λ q. none, tt)
      with_old_password
unfolding resolve
resolve-Resolved_example =
    resolve-Resolved hvac str_of broken client_config (settings "net/r1") no_args 0 (λ q. none, tt)
      with_old_password refl
