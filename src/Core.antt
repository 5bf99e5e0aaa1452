-- ===== src/Core.antt =====
-- Identities of processes (src/core).
pub mod ProcessInstance
