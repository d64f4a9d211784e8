-- ===== src/Netmiko.antt =====
-- linux_net/plugins/drivers/netmiko.
pub mod Config
pub mod Session
pub mod Send
