-- ===== src/Net.antt =====
-- The network layer (src/net), as far as it is free of system calls.
pub mod Buffer
mod Examples
