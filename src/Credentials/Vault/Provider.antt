-- ===== src/Credentials/Vault/Provider.antt =====
-- `VaultKvCredentialProvider`: its construction, and `resolve`. hvac's client is a parameter.
pub mod Resolution
use linux_net_x.Base.{
  ℕ, String, Bool, true, false, ◌&&◌, not, Option, none, some, List, [], ◌∷◌, ◌++◌, ◌==◌, str_eq,
  length, if◌then◌else◌,
}
use linux_net_x.Nodes.{Result, ok, raise, value_error}
use linux_net_x.Redis.Table.{lookup}
use linux_net_x.Credentials.Vault.Settings.{
  VaultKvConfig, VaultCredentialSettings, is_set, or_else, is_allowed_path,
}
use linux_net_x.Credentials.Vault.Cache.{Secret, Params, Expiring, Memory, read_secret}

-- `client.secrets.kv.v2.read_secret_version` is `read`, at a time; `none` is an exception.
pub record Hvac : Type 1 where
  pub Client : Type 0
  pub connect : Option String → Option String → Client
  pub is_authenticated : Client → Bool
  pub login : Option String → Option String → Client → Option Client
  pub read : Client → ℕ → Params → Option Secret

abbrev pub Mapping : Type 0
Mapping = List (String × String)

-- The value of a field that is there and is not null.
unfoldable pub get_field : Secret → String → Option String
unfolding lookup
get_field secret source = elim (lookup secret source) [ none ↦ none | some value ↦ value ]

-- The updates and the missing fields.
unfoldable pub explicit : Mapping → Secret → List (String × String) × List String
unfolding get_field
explicit [] secret = ([], [])
explicit ((dest, source) ∷ m) secret =
    let rest = explicit m secret in
    elim (get_field secret source) [
      | some value ↦ ((dest, value) ∷ rest.0, rest.1)
      | none ↦ (rest.0, source ∷ rest.1)
    ]

abbrev maps_to_itself : Mapping → String → Bool
maps_to_itself m name = elim (lookup m name) [ none ↦ false | some source ↦ str_eq source name ]

-- `self.cfg.field_mapping == DEFAULT_FIELD_MAPPING`: dicts are compared without their order.
unfoldable pub is_default_mapping : Mapping → Bool
unfolding lookup
is_default_mapping m = length m == 2 && maps_to_itself m "username" && maps_to_itself m "password"

unfoldable pub optional : Bool → Secret → List (String × String)
unfolding get_field
optional false secret = []
optional true secret = elim (get_field secret "pkey") [
  | none ↦ []
  | some value ↦ ("pkey", value) ∷ []
]

unfoldable pub extracted : Mapping → Secret → List (String × String) × List String → Result Mapping
unfolding optional is_default_mapping
extracted m secret (updates, []) = ok (updates ++ optional (is_default_mapping m) secret)
extracted m secret (updates, source ∷ missing) = raise value_error

unfoldable pub extract_updates : Mapping → Secret → Result Mapping
unfolding extracted explicit
extract_updates m secret = extracted m secret (explicit m secret)

-- The fields of `DriverConnectionArgs`, and `conn_args.model_copy(update=updates)`.
abbrev pub ConnectionArgs : Type 0
ConnectionArgs = String → Option String

unfoldable pub model_copy : ConnectionArgs → Mapping → ConnectionArgs
unfolding lookup
model_copy args updates field = elim (lookup updates field) [
  | none ↦ args field
  | some value ↦ some value
]

module _ (H : Hvac) where
  -- The login of a client that the token does not authenticate.
  unfoldable pub with_role : VaultKvConfig → H.Client → Option H.Client
  unfolding is_set
  with_role c client =
      if H.is_authenticated client
      then some client
      else if is_set c.role_id && is_set c.secret_id
      then H.login c.role_id c.secret_id client
      else some client

  unfoldable pub checked_client : Option H.Client → Result H.Client
  checked_client none = raise value_error
  checked_client (some client) = if H.is_authenticated client then ok client else raise value_error

  unfoldable pub build_client : VaultKvConfig → Option String → Result H.Client
  unfolding with_role checked_client
  build_client c namespace = checked_client (with_role c (H.connect c.token namespace))

  unfoldable pub params_of : VaultKvConfig → VaultCredentialSettings → Params
  unfolding or_else
  params_of c cfg = record {
    namespace = or_else cfg.namespace c.namespace;
    mount = cfg.mount;
    ref = cfg.ref;
    version = cfg.version;
  }

  -- `__init__`: the path is tested before a client is made.
  unfoldable pub new_provider : VaultKvConfig → VaultCredentialSettings → Result H.Client
  unfolding is_allowed_path build_client or_else
  new_provider c cfg =
      if is_allowed_path c cfg
      then build_client c (or_else cfg.namespace c.namespace)
      else raise value_error

  module _ (str_of : ℕ → String) (L2 : Expiring) where
    unfoldable pub with_updates :
        ConnectionArgs
        → Result Mapping
        → Memory × L2.Keys
        → Result ConnectionArgs × (Memory × L2.Keys)
    unfolding model_copy
    with_updates args (raise e) s = (raise e, s)
    with_updates args (ok updates) s = (ok (model_copy args updates), s)

    unfoldable pub with_secret :
        Mapping
        → ConnectionArgs
        → Result Secret × (Memory × L2.Keys)
        → Result ConnectionArgs × (Memory × L2.Keys)
    unfolding extract_updates with_updates
    with_secret m args (raise e, s) = (raise e, s)
    with_secret m args (ok secret, s) = with_updates args (extract_updates m secret) s

    unfoldable pub with_client :
        VaultKvConfig
        → VaultCredentialSettings
        → ConnectionArgs
        → ℕ
        → Result H.Client
        → Memory × L2.Keys
        → Result ConnectionArgs × (Memory × L2.Keys)
    unfolding with_secret read_secret params_of
    with_client c cfg args now (raise e) s = (raise e, s)
    with_client c cfg args now (ok client) s =
        with_secret cfg.field_mapping args
          (read_secret str_of L2 (H.read client) c.cache_ttl now (params_of c cfg) s)

    -- A provider for a request, and its `resolve`.
    unfoldable pub resolve :
        VaultKvConfig
        → VaultCredentialSettings
        → ConnectionArgs
        → ℕ
        → Memory × L2.Keys
        → Result ConnectionArgs × (Memory × L2.Keys)
    unfolding with_client new_provider
    resolve c cfg args now s = with_client c cfg args now (new_provider c cfg) s
