-- ===== src/Diff.antt =====
-- backend/src/bridle/agent/tools/unified_diff.py: the patches that agents write.
pub mod Lines
pub mod Hunks
pub mod Parse
pub mod Validate
pub mod Body
mod Examples
