-- ===== src/Storage.antt =====
-- dsh-storage-synapse: how a stored file is packed.
pub mod Car
mod Tests
