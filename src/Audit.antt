-- ===== src/Audit.antt =====
-- The audit of jobs: linux_net/services/audit.py, linux_net/worker/archiver.py and the masking of
-- secrets in linux_net/utils/__init__.py.
pub mod Masking
pub mod Callback
pub mod Archiver
pub mod Secrecy
