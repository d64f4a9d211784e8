-- ===== src/Audit/Masking.antt =====
-- `mask_sensitive_data` (linux_net/utils/__init__.py), on the values that JSON has.
pub mod Laws
use linux_net_x.Base.{ℕ, String, Bool, ◌||◌, str_eq, if◌then◌else◌}

-- A value that is neither a dict nor a list is passed through; its type does not matter.
mutual
  pub data Json : Type 0 where
    null : Json
    boolean : Bool → Json
    number : ℕ → Json
    text : String → Json
    list : Items → Json
    dict : Fields → Json

  pub data Items : Type 0 where
    nil : Items
    item : Json → Items → Items

  pub data Fields : Type 0 where
    end : Fields
    field : String → Json → Fields → Fields

abbrev pub redacted : Json
redacted = text "******"

-- `lower` is Python's `str.lower`; nothing below depends on how it treats other alphabets.
module _ (lower : String → String) where
  unfoldable pub is_sensitive : String → Bool
  is_sensitive k =
      str_eq (lower k) "password"
      || str_eq (lower k) "secret"
      || str_eq (lower k) "private_key"
      || str_eq (lower k) "token"

  unfoldable mutual
    pub mask_sensitive_data : Json → Json
    mask_sensitive_data (dict fields) = dict (mask_fields fields)
    mask_sensitive_data (list items) = list (mask_items items)
    mask_sensitive_data null = null
    mask_sensitive_data (boolean b) = boolean b
    mask_sensitive_data (number n) = number n
    mask_sensitive_data (text s) = text s

    pub mask_items : Items → Items
    mask_items nil = nil
    mask_items (item x xs) = item (mask_sensitive_data x) (mask_items xs)

    pub mask_fields : Fields → Fields
    mask_fields end = end
    mask_fields (field k v fields) =
        field k (if is_sensitive k then redacted else mask_sensitive_data v) (mask_fields fields)
