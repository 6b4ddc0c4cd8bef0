-- ===== src/Storage.antt =====
-- The storage layer (src/storage).
pub mod HashTable
pub mod Expiry
pub mod Database
pub mod AvlTree
