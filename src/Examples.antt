-- ===== src/Examples.antt =====
-- The theorems at concrete inputs.
pub mod Pinning
pub mod Selection
pub mod Dispatching
pub mod Tasks
pub mod Devices
pub mod Managing
pub mod Jobs
pub mod Listing
pub mod Auditing
pub mod Secrets
pub mod Routing
pub mod Configuring
pub mod Committing
