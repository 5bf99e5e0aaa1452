-- ===== src/Health.antt =====
-- The health of the sources (src/health).
pub mod SourceGaps
pub mod Coverage
