-- ===== src/Credentials.antt =====
-- linux_net/plugins/credentials, and the routes that use them.
pub mod Vault
