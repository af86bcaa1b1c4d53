-- ===== src/Dm.antt =====
-- dm/src: the display manager's socket to the greeter, and the lock of the session.
pub mod State
pub mod Session
pub mod Ipc
mod Tests
