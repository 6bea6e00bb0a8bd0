-- ===== src/Events.antt =====
-- backend/src/bridle/events/bus.py: the event bus and the generators of its subscribers.
pub mod Bus
pub mod Order
pub mod Sound
pub mod Replay
mod Examples
