-- ===== src/Protocol.antt =====
-- The protocol layer (src/protocol).
pub mod Writer
pub mod Outcome
pub mod Parser
mod Examples
