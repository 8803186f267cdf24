-- ===== src/Claims.antt =====
-- Disclosed claims and their names (internal/pipeline/report.go).
pub mod Defs
pub mod Sorted
pub mod Names
pub use Defs.{Value, Claims, leaf, node, nil, entry}
