-- ===== src/Util.antt =====
-- The helpers that the layers share (src/util, and the int64_t tests that several files repeat).
pub mod Int64
pub mod Parse
pub mod Crc32
mod Examples
