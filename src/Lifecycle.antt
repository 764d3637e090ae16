-- ===== src/Lifecycle.antt =====
-- app/lifecycle: starting, stopping and restarting the Palworld service.
pub mod Executor
pub mod Returns
pub mod Verdict
pub mod Fake
pub mod Jobs
pub mod Requests
pub mod Completion
