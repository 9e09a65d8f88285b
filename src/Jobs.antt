-- ===== src/Jobs.antt =====
-- jobs.py: the in-process registry of typed program jobs.
pub mod Registry
pub mod Capacity
pub mod Secrecy
pub mod Cancelled
mod Tests
