-- ===== src/Jobs.antt =====
-- jobs/: delayed jobs in PostgreSQL.
pub mod Table
pub mod Config
pub mod Registry
pub mod Enqueue
pub mod Repository
pub mod Worker
pub mod System
mod Tests
