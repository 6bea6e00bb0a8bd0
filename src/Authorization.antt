-- ===== src/Authorization.antt =====
-- backend/src/bridle/agent/runtime/authorization.py: grants, the decisions on them, their
-- derivation, and the revocation tokens behind them.
pub mod Paths
pub mod Grants
pub mod Normalize
pub mod Tokens
pub mod Payload
pub mod Decide
pub mod Derive
pub mod Execute
pub mod Drives
mod Examples
