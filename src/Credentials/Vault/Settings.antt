-- ===== src/Credentials/Vault/Settings.antt =====
-- `VaultKvConfig`, `VaultCredentialSettings` and the policy on paths.
use Prim.Native.Char.{Char, code}
use text.Mathlib.Text.{starts_with}
use linux_net_x.Base.{
  ℕ, String, Bool, true, false, ◌&&◌, ◌||◌, not, Option, none, some, List, [], ◌∷◌, ◌==◌, str_eq,
  text_append, if◌then◌else◌,
}
use linux_net_x.Nodes.{Result, ok, raise, value_error}

-- The truth value of an optional text: an empty one counts as absent.
unfoldable pub is_set : Option String → Bool
is_set none = false
is_set (some s) = not (str_eq s "")

-- `x or y`
unfoldable pub or_else : Option String → Option String → Option String
unfolding is_set
or_else x y = if is_set x then x else y

-- `verify`, which only the library reads, is left out.
pub record VaultKvConfig : Type 0 where
  pub addr : Option String
  pub token : Option String
  pub role_id : Option String
  pub secret_id : Option String
  pub namespace : Option String
  pub allowed_paths : List String
  pub cache_ttl : ℕ

pub record VaultCredentialSettings : Type 0 where
  pub ref : String
  pub mount : String
  pub version : Option ℕ
  pub namespace : Option String
  pub field_mapping : List (String × String)

abbrev pub default_field_mapping : List (String × String)
default_field_mapping = ("username", "username") ∷ ("password", "password") ∷ []

has_role : VaultKvConfig → Bool
unfolding is_set
has_role c = is_set c.role_id && is_set c.secret_id

-- An address is an object, which is true wherever it is there.
unfoldable pub validate_core : VaultKvConfig → Result VaultKvConfig
unfolding is_set has_role
validate_core c = elim c.addr [
  | none ↦ raise value_error
  | some addr ↦ if not (is_set c.token) && not (has_role c) then raise value_error else ok c
]

-- What the environment gives to a field that the configuration leaves out.
unfoldable pub from_environment : Option String → Option String → Option String
unfolding is_set
from_environment (some value) variable = some value
from_environment none variable = if is_set variable then variable else none

-- `environment` reads a variable; a plugin's configuration is given with its missing fields as `none`.
unfoldable pub load_client_config : (String → Option String) → VaultKvConfig → Result VaultKvConfig
unfolding from_environment validate_core
load_client_config environment c = validate_core (record c {
  token = from_environment c.token (environment "LINUX_NET_VAULT_TOKEN");
  role_id = from_environment c.role_id (environment "LINUX_NET_VAULT_ROLE_ID");
  secret_id = from_environment c.secret_id (environment "LINUX_NET_VAULT_SECRET_ID");
})

unfoldable pub ensure_mapping : VaultCredentialSettings → VaultCredentialSettings
ensure_mapping cfg = elim cfg.field_mapping [
  | [] ↦ record cfg { field_mapping = default_field_mapping }
  | m ∷ ms ↦ cfg
]

-- No name in a mapping is empty.
unfoldable pub validate_mapping : List (String × String) → Bool
validate_mapping [] = true
validate_mapping ((dest, src) ∷ ms) =
    not (str_eq dest "") && not (str_eq src "") && validate_mapping ms

abbrev is_slash : Char → Bool
is_slash c = code c == 47

-- `s.strip("/")`
strip_left : String → String
strip_left String.[] = ""
strip_left (String.◌∷◌ c s) = let rest = strip_left s in if is_slash c then rest else String.◌∷◌ c s

strip_right : String → String
strip_right String.[] = ""
strip_right (String.◌∷◌ c s) =
    let rest = strip_right s in if is_slash c && str_eq rest "" then "" else String.◌∷◌ c rest

unfoldable pub strip : String → String
unfolding strip_left strip_right
strip s = strip_right (strip_left s)

unfoldable pub full_path : VaultCredentialSettings → String
unfolding strip
full_path cfg = text_append (strip cfg.mount) (text_append "/" (strip cfg.ref))

unfoldable pub has_prefix_in : List String → String → Bool
has_prefix_in [] path = false
has_prefix_in (prefix ∷ prefixes) path = starts_with path prefix || has_prefix_in prefixes path

-- An empty list allows all paths.
unfoldable pub is_allowed_path : VaultKvConfig → VaultCredentialSettings → Bool
unfolding full_path has_prefix_in
is_allowed_path c cfg = elim c.allowed_paths [
  | [] ↦ true
  | prefix ∷ prefixes ↦ has_prefix_in (prefix ∷ prefixes) (full_path cfg)
]
