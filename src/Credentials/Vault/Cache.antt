-- ===== src/Credentials/Vault/Cache.antt =====
-- `VaultKvCredentialProvider._read_secret`: Vault behind a cache in the memory of each process and
-- one in Redis. Times are in microseconds.
pub mod Freshness
pub mod Processes
use linux_net_x.Base.{
  ℕ, ◌+◌, ◌*◌, String, Bool, true, false, ◌&&◌, Option, none, some, List, [], ◌∷◌, ◌≡◌, refl, ap,
  ◌⊎◌, inl, inr, ltb, ◌==◌, str_eq, eq_iff, arith, Bool-cases, text_append, if◌then◌else◌,
}
use linux_net_x.Nodes.{Result, ok, raise, value_error}
use linux_net_x.Credentials.Vault.Settings.{is_set}

-- A field may hold null.
abbrev pub Secret : Type 0
Secret = List (String × Option String)

pub record Params : Type 0 where
  pub namespace : Option String
  pub mount : String
  pub ref : String
  pub version : Option ℕ

same_text : Option String → Option String → Bool
same_text none none = true
same_text (some s) (some t) = str_eq s t
same_text _ _ = false

same_version : Option ℕ → Option ℕ → Bool
same_version none none = true
same_version (some n) (some m) = n == m
same_version _ _ = false

same_params : Params → Params → Bool
unfolding same_text same_version
same_params p q =
    same_text p.namespace q.namespace
    && str_eq p.mount q.mount
    && str_eq p.ref q.ref
    && same_version p.version q.version

same_text-true : (s t : Option String) → same_text s t ≡ true → s ≡ t
unfolding same_text
same_text-true none none h = refl
same_text-true (some s) (some t) h = ap some ((eq_iff s t).0 h)
same_text-true _ _ h = cc

same_version-true : (n m : Option ℕ) → same_version n m ≡ true → n ≡ m
unfolding same_version
same_version-true none none h = refl
same_version-true (some n) (some m) h = let e : n ≡ m = ground arith in ap some e
same_version-true _ _ h = cc

same_params-true : (p q : Params) → same_params p q ≡ true → p ≡ q
unfolding same_params
same_params-true p q h =
    let a = same_text-true p.namespace q.namespace (ground arith) in
    let b : p.mount ≡ q.mount = (eq_iff _ _).0 (ground arith) in
    let c : p.ref ≡ q.ref = (eq_iff _ _).0 (ground arith) in
    let d = same_version-true p.version q.version (ground arith) in
    λ i. record { namespace = a i; mount = b i; ref = c i; version = d i }

-- Redis with keys that expire. `none` in place of an answer is an exception.
pub record Expiring : Type 1 where
  pub Keys : Type 0
  pub get : ℕ → String → Keys → Option (Option Secret)
  pub setex : ℕ → String → ℕ → Secret → Keys → Option Keys

-- A process's cache: the entry of some parameters, with the time at which it expires.
abbrev pub Memory : Type 0
Memory = Params → Option (ℕ × Secret)

abbrev pub seconds : ℕ → ℕ
seconds n = n * 1_000_000

abbrev pub l1_cache_ttl : ℕ
l1_cache_ttl = seconds 10

unfoldable pub remember : Params → ℕ × Secret → Memory → Memory
unfolding same_params
remember p e memory q = if same_params q p then some e else memory q

-- What is found is what was there, or what was kept for these parameters.
pub remember-some :
    (p q : Params) (e f : ℕ × Secret) (memory : Memory)
    → remember p e memory q ≡ some f
    → ((q ≡ p) × (e ≡ f)) ⊎ (memory q ≡ some f)
unfolding remember
remember-some p q e f memory h = elim (Bool-cases (same_params q p)) [
  | inl s ↦ let h' : some e ≡ some f = rw s at h in inl (same_params-true q p s, cc)
  | inr s ↦ inr (rw s at h)
]

-- `str_of` is `str` on a number.
module _ (str_of : ℕ → String) where
  unfoldable pub ver_of : Option ℕ → String
  ver_of none = "latest"
  ver_of (some v) = if v == 0 then "latest" else str_of v

  unfoldable pub ns_of : Option String → String
  unfolding is_set
  ns_of none = "default"
  ns_of (some ns) = if is_set (some ns) then ns else "default"

  unfoldable pub redis_key : Params → String
  unfolding ver_of ns_of
  redis_key p = text_append "linux_net:cache:vault:" (
      text_append (ns_of p.namespace) (
        text_append ":" (
          text_append p.mount
            (text_append ":" (text_append p.ref (text_append ":" (ver_of p.version)))))))

  -- `vault` is what Vault answers at a time; `none` is any of its exceptions, all of which become
  -- a ValueError.
  module _ (L2 : Expiring) (vault : ℕ → Params → Option Secret) (cache_ttl : ℕ) where
    abbrev pub CacheState : Type 0
    CacheState = Memory × L2.Keys

    -- A secret that is not empty is put into both caches; Redis may fail.
    unfoldable pub populate : ℕ → Params → Secret → CacheState → CacheState
    unfolding redis_key remember
    populate now p secret (memory, keys) = (
      remember p (now + l1_cache_ttl, secret) memory,
      elim (L2.setex now (redis_key p) cache_ttl secret keys) [ none ↦ keys | some keys' ↦ keys' ],
    )

    unfoldable pub fetched : ℕ → Params → Option Secret → CacheState → Result Secret × CacheState
    unfolding populate
    fetched now p none s = (raise value_error, s)
    fetched now p (some []) s = (raise value_error, s)
    fetched now p (some (f ∷ fs)) s =
        (ok (f ∷ fs), if ltb 0 cache_ttl then populate now p (f ∷ fs) s else s)

    unfoldable pub direct_fetch : ℕ → Params → CacheState → Result Secret × CacheState
    unfolding fetched
    direct_fetch now p s = fetched now p (vault now p) s

    -- A hit in Redis is kept in memory; an exception, and a missing key, lead to Vault.
    unfoldable pub after_l2 :
        ℕ → Params → Option (Option Secret) → CacheState → Result Secret × CacheState
    unfolding direct_fetch remember
    after_l2 now p (some (some secret)) (memory, keys) =
        (ok secret, (remember p (now + l1_cache_ttl, secret) memory, keys))
    after_l2 now p _ s = direct_fetch now p s

    unfoldable pub check_l2 : ℕ → Params → CacheState → Result Secret × CacheState
    unfolding after_l2 redis_key
    check_l2 now p s = after_l2 now p (L2.get now (redis_key p) s.1) s

    unfoldable pub after_l1 :
        ℕ → Params → Option (ℕ × Secret) → CacheState → Result Secret × CacheState
    unfolding check_l2
    after_l1 now p none s = check_l2 now p s
    after_l1 now p (some (expires, secret)) s =
        if ltb now expires then (ok secret, s) else check_l2 now p s

    unfoldable pub read_secret : ℕ → Params → CacheState → Result Secret × CacheState
    unfolding after_l1 direct_fetch
    read_secret now p s = if ltb 0 cache_ttl then after_l1 now p (s.0 p) s else direct_fetch now p s
