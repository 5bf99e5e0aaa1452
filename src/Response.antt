-- ===== src/Response.antt =====
-- Remote response: identity, commands and their admission (src/response).
pub mod Identity
pub mod Timestamp
pub mod ReplayLedger
pub mod Command
pub mod Gate
mod Tests
