-- ===== src/Manifests.antt =====
-- manifests.py: what is declared of each capability, and the checks on the declarations.
pub mod Record
pub mod Checked
pub mod Table
pub mod Activation
pub mod Listed
mod Tests
