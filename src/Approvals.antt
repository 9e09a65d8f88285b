-- ===== src/Approvals.antt =====
-- approvals.py: one-time approval records kept by a registry over an owner-only JSON file.
pub mod Record
pub mod File
pub mod Registry
mod Chosen
mod Persist
pub mod OneTime
pub mod Durable
mod Tests
pub mod Matching
pub mod RoundTrip
pub mod Capacity
