-- ===== src/Credentials/Vault/Cache/Processes.antt =====
-- Processes that read secrets, each with a cache of its own and all with one Redis.
use linux_net_x.Base.{
  ℕ, ◌+◌, ◌≤◌, String, ◌≡◌, refl, ap, inl, inr, Option, none, some, [], ◌∷◌, ltb, ◌==◌,
  if◌then◌else◌, Bool-cases,
}
use linux_net_x.Nodes.{Result, ok}
use linux_net_x.Credentials.Vault.Cache.{
  Secret, Params, Expiring, Memory, redis_key, read_secret, direct_fetch, fetched, check_l2,
  after_l2, after_l1,
}
use linux_net_x.Credentials.Vault.Cache.Freshness.{
  Expires, HeldUntil, HeldUntil-mono, IsSound, read_secret-IsGood,
}

abbrev pub Memories : Type 0
Memories = ℕ → Memory

-- The caches after process `i` has changed its own.
abbrev pub with_memory : Memories → ℕ → Memory → Memories
with_memory ms i m j = if i == j then m else ms j

module _ (str_of : ℕ → String) (L2 : Expiring) (vault : ℕ → Params → Option Secret)
    (cache_ttl : ℕ) where
  abbrev read : ℕ → Params → Memory × L2.Keys → Result Secret × Memory × L2.Keys
  read now p s = let r = read_secret str_of L2 vault cache_ttl now p s in (r.0, r.1.0, r.1.1)

  -- What time, and reads by any process, make of empty caches.
  pub data Reach : ℕ → Memories → L2.Keys → Type 0 where
    start :
        (keys : L2.Keys)
        → ((later : ℕ) (key : String) (t : Secret) → L2.get later key keys ≡ some (some t) → ⊥)
        → Reach 0 (λ i q. none) keys
    waits :
        {now : ℕ} (later : ℕ) {ms : Memories} {keys : L2.Keys}
        → now ≤ later
        → Reach now ms keys
        → Reach later ms keys
    reads :
        {now : ℕ} (i : ℕ) (p : Params) {ms : Memories} {keys : L2.Keys}
        → Reach now ms keys
        → Reach now (with_memory ms i (read now p (ms i, keys)).1) (read now p (ms i, keys)).2

  abbrev Sound : ℕ → Memories → L2.Keys → Type 0
  Sound now ms keys = (i : ℕ) → IsSound str_of L2 vault cache_ttl now (ms i, keys)

  module _ (expires : Expires L2) where
    Reach-Sound : {now : ℕ} {ms : Memories} {keys : L2.Keys} → Reach now ms keys → Sound now ms keys
    Reach-Sound (start keys fresh) i = record {
      in_memory = λ p e f. cc;
      in_redis = λ later key t f. absurd (fresh later key t f);
    }
    Reach-Sound (waits later le h) i =
        let s = Reach-Sound h i in
        record {
          in_memory = λ p e f. HeldUntil-mono str_of L2 vault cache_ttl le (s.in_memory p e f);
          in_redis =
              λ at key t f. HeldUntil-mono str_of L2 vault cache_ttl le (s.in_redis at key t f);
        }
    Reach-Sound (reads {now} i p {ms} {keys} h) j =
        let s = Reach-Sound h in
        let g =
          (read_secret-IsGood str_of L2 vault cache_ttl expires now p (ms i, keys) (s i)).sound in
        elim (Bool-cases (i == j)) [
          | inl q ↦ rw q g
          | inr q ↦ rw q (record { in_memory = (s j).in_memory; in_redis = g.in_redis })
        ]

    -- However reads by processes that share one Redis interleave, a secret that a read returns is
    -- one that Vault held, for parameters with the same key in Redis, less than the TTL and the
    -- ten seconds of a process's own cache ago. Redis need not answer, but a key that it returns
    -- has been set and has not expired, and at first it has none.
    pub read_secret-HeldUntil :
        {now : ℕ} {ms : Memories} {keys : L2.Keys} (i : ℕ) (p : Params) (secret : Secret)
        → Reach now ms keys
        → (read_secret str_of L2 vault cache_ttl now p (ms i, keys)).0 ≡ ok secret
        → HeldUntil str_of L2 vault cache_ttl now (redis_key str_of p) (now + 1) secret
    read_secret-HeldUntil i p secret h e =
        (read_secret-IsGood str_of L2 vault cache_ttl expires _ p _ (Reach-Sound h i)).answer secret
          e

  module _ (now : ℕ) (p : Params) (f : String × Option String) (fs : Secret)
      (v : vault now p ≡ some (f ∷ fs)) where
    Answers : Result Secret → Type 0
    Answers r = (secret : Secret) × (r ≡ ok secret)

    from_vault :
        (s : Memory × L2.Keys) → (direct_fetch str_of L2 vault cache_ttl now p s).0 ≡ ok (f ∷ fs)
    unfolding direct_fetch fetched
    from_vault s = rw (v, direct_fetch) refl

    from_redis :
        (o : Option (Option Secret)) (s : Memory × L2.Keys)
        → Answers (after_l2 str_of L2 vault cache_ttl now p o s).0
    unfolding Answers after_l2
    from_redis none s = (f ∷ fs, from_vault s)
    from_redis (some none) s = (f ∷ fs, from_vault s)
    from_redis (some (some t)) s = (t, refl)

    from_memory :
        (o : Option (ℕ × Secret)) (s : Memory × L2.Keys)
        → Answers (after_l1 str_of L2 vault cache_ttl now p o s).0
    unfolding Answers after_l1 check_l2
    from_memory none s = from_redis _ s
    from_memory (some (limit, t)) s = elim (Bool-cases (ltb now limit)) [
      | inl q ↦ rw q (t, refl)
      | inr q ↦ rw q (from_redis _ s)
    ]

    -- While Vault holds a secret that is not empty a read returns one, whatever the caches hold and
    -- however Redis fails.
    pub read_secret_answers :
        (m : Memory) (keys : L2.Keys)
        → (secret : Secret) × ((read_secret str_of L2 vault cache_ttl now p (m, keys)).0
            ≡ ok secret)
    unfolding read_secret Answers
    read_secret_answers m keys = elim (Bool-cases (ltb 0 cache_ttl)) [
      | inl q ↦ rw q (from_memory (m p) (m, keys))
      | inr q ↦ rw q (f ∷ fs, from_vault (m, keys))
    ]

-- With a TTL of 0 a read leaves the caches alone, and its answer is that of Vault now.
pub read_secret_uncached :
    (str_of : ℕ → String) (L2 : Expiring) (vault : ℕ → Params → Option Secret) (now : ℕ)
    (p : Params) (s : Memory × L2.Keys) (o : Option Secret)
    → vault now p ≡ o
    → ((read_secret str_of L2 vault 0 now p s).1 ≡ s)
      × ((f : String × Option String) (fs : Secret)
          → o ≡ some (f ∷ fs)
          → (read_secret str_of L2 vault 0 now p s).0 ≡ ok (f ∷ fs))
unfolding read_secret direct_fetch fetched
read_secret_uncached str_of L2 vault now p s none v = (rw (v, direct_fetch) refl, λ f fs e. cc)
read_secret_uncached str_of L2 vault now p s (some []) v = (rw (v, direct_fetch) refl, λ f fs e. cc)
read_secret_uncached str_of L2 vault now p s (some (g ∷ gs)) v = (
  rw (v, direct_fetch) refl,
  λ f fs e. rw (v, direct_fetch) (let q : g ∷ gs ≡ f ∷ fs = cc in ap ok q),
)
