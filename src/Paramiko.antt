-- ===== src/Paramiko.antt =====
-- linux_net/plugins/drivers/paramiko/__init__.py: the SSH driver.
pub mod Transfer
pub mod Session
pub mod Logs
pub mod Config
