-- ===== src/Rpc.antt =====
-- What a worker does with a job (linux_net/services/rpc.py).
pub mod Execute
pub mod Callback
