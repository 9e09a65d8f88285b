-- ===== src/Policy.antt =====
-- kernel_policy.py: authorization, lock keys and the retry loop.
pub mod Scopes
pub mod Retry
pub mod Attempts
mod Granted
pub mod Access
mod Tests
