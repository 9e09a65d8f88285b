-- ===== src/RemoteJobs.antt =====
-- remote_jobs.py: durable records of remote jobs, their store and the registry over it.
pub mod Record
pub mod Codec
pub mod RoundTrip
pub mod Lifecycle
pub mod Stored
pub mod History
pub mod Idempotent
mod Tests
pub mod Store
pub mod Registry
