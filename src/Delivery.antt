-- ===== src/Delivery.antt =====
-- Durable delivery of telemetry (src/delivery, include/panopticon/officer/delivery).
pub mod Spool
pub mod Journal
pub mod Uploader
