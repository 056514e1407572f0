-- ===== src/Aol.antt =====
-- dsh-haven-aol: the caches of derived keys.
pub mod KeyCache
mod Tests
