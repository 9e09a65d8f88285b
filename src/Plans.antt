-- ===== src/Plans.antt =====
-- docker_ops.py: the plans of container recreations, their store, and what a client sees of them.
pub mod Record
pub mod Store
pub mod Diff
pub mod Output
mod Entries
pub mod Applied
pub mod Hidden
mod Holds
pub mod Found
mod Tests
