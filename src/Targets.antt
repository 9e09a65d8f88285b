-- ===== src/Targets.antt =====
-- targets.py: the registry of configured targets and their clients.
pub mod Registry
pub mod Bound
mod Tests
