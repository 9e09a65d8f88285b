-- ===== src/Profiles.antt =====
-- cron_profiles.py: the cron profiles and their store.
pub mod Record
pub mod Store
pub mod Spec
pub mod Loaded
pub mod Refines
mod Tests
