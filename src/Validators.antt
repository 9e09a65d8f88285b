-- ===== src/Validators.antt =====
-- validators.py: what is checked of arguments before any I/O.
pub mod Paths
pub mod SafePaths
pub mod Curl
pub mod Programs
mod Destination
mod Listed
pub mod Admitted
mod Tests
