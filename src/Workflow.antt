-- ===== src/Workflow.antt =====
-- The modification workflow of a plan node: backend/src/bridle/agent/runtime/
-- modification_workflow.py and the tables that back it in features/project_map/store.py.
pub mod Machine
pub mod Store
pub mod Transition
pub mod Contracts
pub mod Audit
pub mod Runs
pub mod Defer
pub mod History
pub mod Examples
