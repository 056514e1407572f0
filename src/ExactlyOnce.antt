-- ===== src/ExactlyOnce.antt =====
-- dsh-exactly-once: the guard that keeps a write tool from running twice.
pub mod Json
pub mod Canonical
pub mod Guard
pub mod Plugin
pub mod World
mod Tests
