-- ===== src/Credentials/Vault/Provider/Resolution.antt =====
-- What a resolution does to the connection arguments.
use linux_net_x.Base.{
  ℕ, String, ◌≡◌, ◌∙◌, refl, sym, ap, subst, inl, inr, Bool, true, false, Option, none, some, List,
  [], ◌∷◌, ◌++◌, str_eq, if◌then◌else◌, arith, Bool-cases, Option-cases,
}
use linux_net_x.Nodes.{Result, ok, raise, value_error}
use linux_net_x.Redis.Table.{lookup}
use linux_net_x.Credentials.Vault.Settings.{VaultKvConfig, VaultCredentialSettings, is_allowed_path}
use linux_net_x.Credentials.Vault.Cache.{Secret, Expiring, Memory, read_secret}
use linux_net_x.Credentials.Vault.Provider.{
  Hvac, Mapping, get_field, explicit, is_default_mapping, optional, extracted, extract_updates,
  ConnectionArgs, model_copy, build_client, checked_client, params_of, new_provider, with_updates,
  with_secret, with_client, resolve,
}

-- What a field holds after the resolution: its secret where the mapping has it, the optional key
-- under the default mapping, and else what it held.
abbrev expected_optional : Bool → Secret → ConnectionArgs → String → Option String
expected_optional false secret args field = args field
expected_optional true secret args field =
    if str_eq "pkey" field
    then elim (get_field secret "pkey") [ none ↦ args field | some value ↦ some value ]
    else args field

abbrev pub expected : Mapping → Secret → ConnectionArgs → String → Option String
expected m secret args field = elim (lookup m field) [
  | none ↦ expected_optional (is_default_mapping m) secret args field
  | some source ↦ get_field secret source
]

copied-optional :
    (b : Bool) (secret : Secret) (args : ConnectionArgs) (field : String)
    → model_copy args (optional b secret) field ≡ expected_optional b secret args field
unfolding model_copy optional lookup
copied-optional false secret args field = refl
copied-optional true secret args field = elim (Option-cases (get_field secret "pkey")) [
  | inl e ↦ rw (e, optional) (ground arith)
  | inr (v, e) ↦ rw (e, optional) (ground arith)
]

-- Whatever follows the explicit updates, they come first, and none of their fields was missing.
lookup-explicit :
    (m : Mapping) (secret : Secret) (more : Mapping) (field : String)
    → (explicit m secret).1 ≡ []
    → lookup ((explicit m secret).0 ++ more) field
      ≡ elim (lookup m field) [ none ↦ lookup more field | some source ↦ get_field secret source ]
unfolding explicit lookup
lookup-explicit [] secret more field h = refl
lookup-explicit ((dest, source) ∷ m) secret more field h =
    elim (Option-cases (get_field secret source)) [
      | inl e ↦ let h' : source ∷ (explicit m secret).1 ≡ [] = rw (e, explicit) at h in cc
      | inr (v, e) ↦
          let h' : (explicit m secret).1 ≡ [] = rw (e, explicit) at h in
          let ih = lookup-explicit m secret more field h' in
          rw (e, explicit)
            (elim (Bool-cases (str_eq dest field)) [ inl q ↦ rw q (sym e) | inr q ↦ rw q ih ])
    ]

none_missing :
    (m : Mapping) (secret : Secret) (field source : String)
    → (explicit m secret).1 ≡ []
    → lookup m field ≡ some source
    → (value : String) × (get_field secret source ≡ some value)
unfolding explicit lookup
none_missing [] secret field source h k = cc
none_missing ((dest, src) ∷ m) secret field source h k =
    elim (Option-cases (get_field secret src)) [
      | inl e ↦ let h' : src ∷ (explicit m secret).1 ≡ [] = rw (e, explicit) at h in cc
      | inr (v, e) ↦
          let h' : (explicit m secret).1 ≡ [] = rw (e, explicit) at h in
          elim (Bool-cases (str_eq dest field)) [
            | inl q ↦
                let k' : some src ≡ some source = rw (q, lookup) at k in
                let p : src ≡ source = cc in (v, ap (get_field secret) (sym p) ∙ e)
            | inr q ↦
                let k' : lookup m field ≡ some source = rw (q, lookup) at k in
                none_missing m secret field source h' k'
          ]
    ]

-- By what the mapping has for the field.
copied_field :
    (m : Mapping) (secret : Secret) (args : ConnectionArgs) (field : String)
    → (explicit m secret).1 ≡ []
    → model_copy args ((explicit m secret).0 ++ optional (is_default_mapping m) secret) field
      ≡ expected m secret args field
unfolding model_copy
copied_field m secret args field h =
    let more = optional (is_default_mapping m) secret in
    let l = lookup-explicit m secret more field h in
    elim (Option-cases (lookup m field)) [
      | inl e ↦
          let l' : lookup ((explicit m secret).0 ++ more) field ≡ lookup more field = rw e at l in
          let g : expected m secret args field
              ≡ expected_optional (is_default_mapping m) secret args field =
            rw (e, expected) refl in
          rw (l', model_copy) (copied-optional (is_default_mapping m) secret args field ∙ sym g)
      | inr (source, e) ↦
          let (v, f) = none_missing m secret field source h e in
          let l' : lookup ((explicit m secret).0 ++ more) field ≡ get_field secret source =
            rw e at l in
          let g : expected m secret args field ≡ get_field secret source = rw (e, expected) refl in
          rw (l' ∙ f, model_copy) (sym f ∙ sym g)
    ]

copied :
    (m : Mapping) (secret : Secret) (updates : Mapping) (args : ConnectionArgs) (field : String)
    → extract_updates m secret ≡ ok updates
    → model_copy args updates field ≡ expected m secret args field
unfolding extract_updates extracted
copied m secret updates args field h = from_parts (explicit m secret) refl h
  where
    from_parts :
        (x : Mapping × List String)
        → explicit m secret ≡ x
        → extracted m secret x ≡ ok updates
        → model_copy args updates field ≡ expected m secret args field
    from_parts (u, []) e k =
        let q : u ++ optional (is_default_mapping m) secret ≡ updates = cc in
        let p : (explicit m secret).0 ≡ u = ap (λ y. y.0) e in
        ap (λ y. model_copy args y field)
          (sym q ∙ ap (λ y. y ++ optional (is_default_mapping m) secret) (sym p))
        ∙ copied_field m secret args field (ap (λ y. y.1) e)
    from_parts (u, source ∷ missing) e k = cc

module _ (H : Hvac) (str_of : ℕ → String) (L2 : Expiring) (c : VaultKvConfig)
    (cfg : VaultCredentialSettings) (args : ConnectionArgs) (now : ℕ) (s : Memory × L2.Keys) where
  -- A resolution that succeeded: with an authenticated client for an allowed path it has read a
  -- secret, which gives the mapped fields and the optional one.
  pub record Resolved (args' : ConnectionArgs) : Type 0 where
    pub client : H.Client
    pub secret : Secret
    pub allowed : is_allowed_path c cfg ≡ true
    pub authenticated : H.is_authenticated client ≡ true
    pub was_read :
        (read_secret str_of L2 (H.read client) c.cache_ttl now (params_of H c cfg) s).0 ≡ ok secret
    pub fields : (field : String) → args' field ≡ expected cfg.field_mapping secret args field

  checked :
      (o : Option H.Client) (client : H.Client)
      → checked_client H o ≡ ok client
      → H.is_authenticated client ≡ true
  unfolding checked_client
  checked none client h = cc
  checked (some x) client h = elim (Bool-cases (H.is_authenticated x)) [
    | inl e ↦
        let h' : ok x ≡ ok client = rw e at h in
        let p : x ≡ client = cc in subst (λ y. H.is_authenticated y ≡ true) p e
    | inr e ↦ let h' : raise value_error ≡ ok client = rw e at h in cc
  ]

  provided :
      (client : H.Client)
      → new_provider H c cfg ≡ ok client
      → (is_allowed_path c cfg ≡ true) × (H.is_authenticated client ≡ true)
  unfolding new_provider build_client
  provided client h = elim (Bool-cases (is_allowed_path c cfg)) [
    | inl e ↦ (e, checked _ client (rw e at h))
    | inr e ↦ let h' : raise value_error ≡ ok client = rw e at h in cc
  ]

  -- A provider resolves a reference only for an allowed path, with a client that Vault accepts. The
  -- arguments that it returns have the secret's values in the mapped fields, the secret's `pkey`, if
  -- there is one, under the default mapping, and are otherwise those that were given.
  pub resolve-Resolved :
      (args' : ConnectionArgs)
      → (resolve H str_of L2 c cfg args now s).0 ≡ ok args'
      → Resolved args'
  unfolding resolve with_client with_secret with_updates
  resolve-Resolved args' h = by_provider (new_provider H c cfg) refl h
    where
      by_updates :
          (client : H.Client) (secret : Secret) (u : Result Mapping) (s' : Memory × L2.Keys)
          → new_provider H c cfg ≡ ok client
          → (read_secret str_of L2 (H.read client) c.cache_ttl now (params_of H c cfg) s).0
            ≡ ok secret
          → extract_updates cfg.field_mapping secret ≡ u
          → (with_updates H str_of L2 args u s').0 ≡ ok args'
          → Resolved args'
      by_updates client secret (raise e) s' p r q k = cc
      by_updates client secret (ok updates) s' p r q k =
          let g : model_copy args updates ≡ args' = cc in
          record {
            client = client;
            secret = secret;
            allowed = (provided client p).0;
            authenticated = (provided client p).1;
            was_read = r;
            fields = λ field.
                ap (λ a. a field) (sym g) ∙ copied cfg.field_mapping secret updates args field q;
          }

      by_read :
          (client : H.Client) (x : Result Secret × (Memory × L2.Keys))
          → new_provider H c cfg ≡ ok client
          → read_secret str_of L2 (H.read client) c.cache_ttl now (params_of H c cfg) s ≡ x
          → (with_secret H str_of L2 cfg.field_mapping args x).0 ≡ ok args'
          → Resolved args'
      by_read client (raise e, s') p r k = cc
      by_read client (ok secret, s') p r k =
          by_updates client secret (extract_updates cfg.field_mapping secret) s' p (ap (λ y. y.0) r)
            refl k

      by_provider :
          (p : Result H.Client)
          → new_provider H c cfg ≡ p
          → (with_client H str_of L2 c cfg args now p s).0 ≡ ok args'
          → Resolved args'
      by_provider (raise e) p k = cc
      by_provider (ok client) p k = by_read client _ p refl k
