-- ===== src/Credentials/Vault.antt =====
-- linux_net/plugins/credentials/vault_kv: credentials from HashiCorp Vault.
pub mod Settings
pub mod Cache
pub mod Provider
