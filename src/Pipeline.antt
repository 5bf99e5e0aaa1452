-- ===== src/Pipeline.antt =====
-- From the collectors to the sinks (src/pipeline).
pub mod RawHandoff
