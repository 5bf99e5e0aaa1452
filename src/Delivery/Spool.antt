-- ===== src/Delivery/Spool.antt =====
-- The durable telemetry spool (src/delivery/spool.cpp, include/panopticon/officer/delivery/spool.hpp).
pub mod Format
pub mod Disk
pub mod State
pub mod Reader
pub mod Operations
mod Tests
