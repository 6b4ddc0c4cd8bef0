-- ===== src/Persistence.antt =====
-- The snapshot file (src/persistence).
pub mod Codec
pub mod Snapshot
mod Examples
