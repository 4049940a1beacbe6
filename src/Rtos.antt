-- ===== src/Rtos.antt =====
-- The RTOS client: rtos/.
pub mod Request
pub mod Response
pub mod Send
pub mod Installation
pub mod Push
pub mod Client
pub mod Session
mod Tests
