-- ===== src/Shutdown.antt =====
-- app/shutdown: the assisted shutdown with its countdown, and the forced one by a signal.
pub mod Executor
pub mod Counted
pub mod Returns
pub mod Jobs
pub mod Race
pub mod Queue
pub mod Completion
pub mod Along
pub mod Assisted
