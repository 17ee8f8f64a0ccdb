-- ===== src/Outbox.antt =====
-- outbox/: events that are stored with a change and delivered later.
pub mod Table
pub mod Config
pub mod Enqueue
pub mod Relay
pub mod System
mod Tests
