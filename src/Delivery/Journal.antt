-- ===== src/Delivery/Journal.antt =====
-- The durable journal (src/delivery/journal.cpp, include/panopticon/officer/delivery/journal.hpp).
pub mod Db
pub mod Transact
pub mod Append
pub mod Checkpoint
pub mod Identifiers
pub mod Command
pub mod Read
pub mod Acknowledge
pub mod Accounting
pub mod Keys
pub mod Inserted
pub mod Inbox
pub mod Evolves
pub mod Fence
pub mod Calls
pub mod Commands
pub mod Settlement
pub mod Generation
pub mod History
pub mod Execution
pub mod Filled
pub mod Queue
pub mod Retirement
pub mod Recovery
mod Tests
