-- ===== src/Pipeline.antt =====
-- The ten-step verification pipeline (internal/pipeline).
pub mod Names
pub mod Report
pub mod Classify
pub mod Trust
pub mod Context
pub mod Engine
pub mod Finalize
pub mod Checks
pub mod Production
