-- ===== src/Shm.antt =====
-- src/common/shm: the shared-memory zones.
pub mod Queue
pub mod Kv
