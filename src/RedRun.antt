-- ===== src/RedRun.antt =====
-- The verdict on a red run: backend/src/bridle/agent/container/red_classification.py.
pub mod Evidence
pub mod Classify
pub mod Examples
