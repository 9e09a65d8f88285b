-- ===== src/Crontab.antt =====
-- cron_profiles.py: the crontab projection.
pub mod Projection
pub mod Installed
pub mod Removal
mod Lines
mod Sees
pub mod Insync
mod Tests
