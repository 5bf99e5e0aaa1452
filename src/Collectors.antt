-- ===== src/Collectors.antt =====
-- Collection of events (src/collectors).
pub mod ProcessImageCache
