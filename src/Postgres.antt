-- ===== src/Postgres.antt =====
-- postgres/: transactions with retries (postgres/tx.go).
pub mod Retryable
pub mod Transaction
mod Tests
