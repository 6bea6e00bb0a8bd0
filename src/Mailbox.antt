-- ===== src/Mailbox.antt =====
-- The mailbox of an agent: backend/src/bridle/agent/runtime/persistent_mailbox.py, with the
-- addresses and envelopes of agent/runtime/mailbox.py.
pub mod Table
pub mod Delivery
pub mod Leases
pub mod Waiting
pub mod Effects
pub mod Sound
pub mod History
pub mod Order
pub mod Fencing
pub mod Schedule
pub mod Holder
pub mod Idempotence
pub mod Closing
pub mod Selected
pub mod Examples
pub mod Idle
