-- ===== src/Session.antt =====
-- src/elke27_lib/session_thread.py: the connection to the panel.
pub mod State
pub mod Codec
pub mod Pump
pub mod Delivery
pub mod Loss
pub mod Lifecycle
pub mod Calls
pub mod Reach
pub mod Notices
mod Tests
