-- ===== src/Kernel.antt =====
-- kernel.py: the invocation of a capability.
pub mod State
pub mod Admission
pub mod Invoke
pub mod Admitted
pub mod Began
mod Consumed
pub mod Approved
pub mod Outcome
pub mod Listed
pub mod Cron
mod Restored
pub mod Refused
mod CronTests
mod Tests
