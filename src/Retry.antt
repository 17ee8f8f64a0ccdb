-- ===== src/Retry.antt =====
-- What jobs/worker.go and outbox/outbox.go both contain, word for word: the delay before a retry
-- and the cut of an error message.
pub mod Backoff
pub mod Bounds
pub mod Truncate
pub mod Prefix
mod Tests
