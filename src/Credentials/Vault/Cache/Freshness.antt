-- ===== src/Credentials/Vault/Cache/Freshness.antt =====
-- Where a secret that `_read_secret` returns comes from, and how old it may be.
use linux_net_x.Base.{
  ℕ, ◌+◌, ◌≤◌, ◌<◌, String, ◌≡◌, ◌∙◌, refl, sym, ap, subst, inl, inr, ◌⊎◌, Option, none, some, [],
  ◌∷◌, ltb, arith, Bool-cases, Option-cases,
}
use linux_net_x.Nodes.{Result, ok}
use linux_net_x.Credentials.Vault.Cache.{
  Secret, Params, Expiring, seconds, l1_cache_ttl, remember, remember-some, redis_key, CacheState,
  populate, fetched, direct_fetch, after_l2, check_l2, after_l1, read_secret,
}

-- What SETEX promises: a key that is read back later is one that was there, or is the one that was
-- written, which has not expired.
abbrev pub Expires : Expiring → Type 0
Expires L2 =
    (now later : ℕ) (key j : String) (ttl : ℕ) (s t : Secret) (keys keys' : L2.Keys)
    → L2.setex now key ttl s keys ≡ some keys'
    → L2.get later j keys' ≡ some (some t)
    → ((j ≡ key) × (t ≡ s) × (later < now + seconds ttl)) ⊎ (L2.get later j keys ≡ some (some t))

module _ (str_of : ℕ → String) (L2 : Expiring) (vault : ℕ → Params → Option Secret)
    (cache_ttl : ℕ) where
  -- At some time up to `now`, Vault held the secret for parameters with the key, and the time was
  -- less than the TTL of Redis before `limit`.
  pub record HeldUntil (now : ℕ) (key : String) (limit : ℕ) (secret : Secret) : Type 0 where
    pub at : ℕ
    pub of : Params
    pub same_key : redis_key str_of of ≡ key
    pub held : vault at of ≡ some secret
    pub past : at ≤ now
    pub recent : limit ≤ at + seconds cache_ttl + l1_cache_ttl

  pub HeldUntil-mono :
      {now later : ℕ} {key : String} {limit : ℕ} {secret : Secret}
      → now ≤ later
      → HeldUntil now key limit secret
      → HeldUntil later key limit secret
  HeldUntil-mono le h = record {
    at = h.at;
    of = h.of;
    same_key = h.same_key;
    held = h.held;
    past = omega (arith, h.past);
    recent = h.recent;
  }

  until :
      {now limit : ℕ} {key : String} {secret : Secret} (sooner : ℕ)
      → HeldUntil now key limit secret
      → sooner ≤ limit
      → HeldUntil now key sooner secret
  until sooner h le = record {
    at = h.at;
    of = h.of;
    same_key = h.same_key;
    held = h.held;
    past = h.past;
    recent = omega (arith, h.recent);
  }

  abbrev State : Type 0
  State = CacheState str_of L2 vault cache_ttl

  -- Entries of both caches were held; those of Redis have not expired.
  pub record IsSound (now : ℕ) (s : State) : Type 0 where
    pub in_memory :
        (p : Params) (e : ℕ × Secret) → s.0 p ≡ some e → HeldUntil now (redis_key str_of p) e.0 e.1
    pub in_redis :
        (later : ℕ) (key : String) (t : Secret)
        → L2.get later key s.1 ≡ some (some t)
        → HeldUntil now key (later + l1_cache_ttl + 1) t

  -- What a read leaves: sound caches, and a secret that was held for the same key.
  pub record IsGood (now : ℕ) (p : Params) (r : Result Secret × State) : Type 0 where
    pub sound : IsSound now r.1
    pub answer :
        (secret : Secret) → r.0 ≡ ok secret → HeldUntil now (redis_key str_of p) (now + 1) secret

  remember-IsSound :
      (now limit : ℕ) (p : Params) (secret : Secret) (s : State)
      → IsSound now s
      → HeldUntil now (redis_key str_of p) limit secret
      → IsSound now (remember p (limit, secret) s.0, s.1)
  remember-IsSound now limit p secret s h k = record {
    in_memory = λ q e f. elim (remember-some p q (limit, secret) e s.0 f) [
      | inl (a, b) ↦ rw a (subst (λ x. HeldUntil now (redis_key str_of p) x.0 x.1) b k)
      | inr old ↦ h.in_memory q e old
    ];
    in_redis = h.in_redis;
  }

  module _ (expires : Expires L2) where
    setex-IsSound :
        (now : ℕ) (p : Params) (secret : Secret) (s : State) (keys : L2.Keys)
        → vault now p ≡ some secret
        → L2.setex now (redis_key str_of p) cache_ttl secret s.1 ≡ some keys
        → IsSound now s
        → IsSound now (s.0, keys)
    setex-IsSound now p secret s keys v e h = record {
      in_memory = h.in_memory;
      in_redis = λ later key t f.
          elim (expires now later (redis_key str_of p) key cache_ttl secret t s.1 keys e f) [
            | inl (a, b, c) ↦ record {
              at = now;
              of = p;
              same_key = sym a;
              held = v ∙ ap some (sym b);
              past = omega arith;
              recent = omega arith;
            }
            | inr old ↦ h.in_redis later key t old
          ];
    }

    just_held :
        (now limit : ℕ) (p : Params) (secret : Secret)
        → vault now p ≡ some secret
        → limit ≤ now + l1_cache_ttl
        → HeldUntil now (redis_key str_of p) limit secret
    just_held now limit p secret v le = record {
      at = now;
      of = p;
      same_key = refl;
      held = v;
      past = omega arith;
      recent = omega arith;
    }

    populate-IsSound :
        (now : ℕ) (p : Params) (secret : Secret) (s : State)
        → vault now p ≡ some secret
        → IsSound now s
        → IsSound now (populate str_of L2 vault cache_ttl now p secret s)
    unfolding populate
    populate-IsSound now p secret s v h =
        elim (Option-cases (L2.setex now (redis_key str_of p) cache_ttl secret s.1)) [
          | inl e ↦ rw (e, populate) (kept s h)
          | inr (keys, e) ↦
              rw (e, populate) (kept (s.0, keys) (setex-IsSound now p secret s keys v e h))
        ]
      where
        kept :
            (s' : State)
            → IsSound now s'
            → IsSound now (remember p (now + l1_cache_ttl, secret) s'.0, s'.1)
        kept s' h' =
            remember-IsSound now (now + l1_cache_ttl) p secret s' h'
              (just_held now (now + l1_cache_ttl) p secret v (omega arith))

    fetched-IsGood :
        (now : ℕ) (p : Params) (o : Option Secret) (s : State)
        → vault now p ≡ o
        → IsSound now s
        → IsGood now p (fetched str_of L2 vault cache_ttl now p o s)
    unfolding fetched
    fetched-IsGood now p none s v h = record { sound = h; answer = λ secret e. cc }
    fetched-IsGood now p (some []) s v h = record { sound = h; answer = λ secret e. cc }
    fetched-IsGood now p (some (f ∷ fs)) s v h = record {
      sound = elim (Bool-cases (ltb 0 cache_ttl)) [
        | inl q ↦ rw q (populate-IsSound now p (f ∷ fs) s v h)
        | inr q ↦ rw q h
      ];
      answer = λ secret e.
          let g : f ∷ fs ≡ secret = cc in
          just_held now (now + 1) p secret (v ∙ ap some g) (omega arith);
    }

    after_l2-IsGood :
        (now : ℕ) (p : Params) (o : Option (Option Secret)) (s : State)
        → L2.get now (redis_key str_of p) s.1 ≡ o
        → IsSound now s
        → IsGood now p (after_l2 str_of L2 vault cache_ttl now p o s)
    unfolding after_l2 direct_fetch
    after_l2-IsGood now p none s v h = fetched-IsGood now p (vault now p) s refl h
    after_l2-IsGood now p (some none) s v h = fetched-IsGood now p (vault now p) s refl h
    after_l2-IsGood now p (some (some t)) s v h =
        let k = h.in_redis now (redis_key str_of p) t v in
        record {
          sound =
              remember-IsSound now (now + l1_cache_ttl) p t s h
                (until (now + l1_cache_ttl) k (omega arith));
          answer = λ secret e.
              let g : t ≡ secret = cc in
              subst (HeldUntil now (redis_key str_of p) (now + 1)) g
                (until (now + 1) k (omega arith));
        }

    after_l1-IsGood :
        (now : ℕ) (p : Params) (o : Option (ℕ × Secret)) (s : State)
        → s.0 p ≡ o
        → IsSound now s
        → IsGood now p (after_l1 str_of L2 vault cache_ttl now p o s)
    unfolding after_l1 check_l2
    after_l1-IsGood now p none s v h = after_l2-IsGood now p _ s refl h
    after_l1-IsGood now p (some (limit, t)) s v h = elim (Bool-cases (ltb now limit)) [
      | inl q ↦ rw q (record {
        sound = h;
        answer = λ secret e.
            let g : t ≡ secret = cc in
            subst (HeldUntil now (redis_key str_of p) (now + 1)) g
              (until (now + 1) (h.in_memory p (limit, t) v) (ground arith));
      })
      | inr q ↦ rw q (after_l2-IsGood now p _ s refl h)
    ]

    pub read_secret-IsGood :
        (now : ℕ) (p : Params) (s : State)
        → IsSound now s
        → IsGood now p (read_secret str_of L2 vault cache_ttl now p s)
    unfolding read_secret direct_fetch
    read_secret-IsGood now p s h = elim (Bool-cases (ltb 0 cache_ttl)) [
      | inl q ↦ rw q (after_l1-IsGood now p (s.0 p) s refl h)
      | inr q ↦ rw q (fetched-IsGood now p (vault now p) s refl h)
    ]
