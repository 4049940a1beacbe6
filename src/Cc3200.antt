-- ===== src/Cc3200.antt =====
-- The port to the CC3200 board: cc3200/src.
pub mod ClientState
mod Tests
pub mod Socket
pub mod Clock
pub mod Device
