-- ===== src/Json.antt =====
-- common/simplejson.c.
pub mod Processor
pub mod Frame
pub mod Messages
mod Tests
