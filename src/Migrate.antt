-- ===== src/Migrate.antt =====
-- migrate/migrate.go: loading migrations, applying them in order, and their status.
pub mod Files
pub mod Load
pub mod Apply
pub mod Loaded
pub mod Ordered
pub mod Applied
pub mod Rerun
mod Tests
