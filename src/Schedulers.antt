-- ===== src/Schedulers.antt =====
-- linux_net/plugins/schedulers: the greedy, the least-load, the least-load random and
-- the load-weighted random scheduler.
pub mod Greedy
pub mod Groups
pub mod LeastLoad
pub mod LeastLoadRandom
pub mod LoadWeightedRandom
pub mod Contract
