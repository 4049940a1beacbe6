-- ===== src/Push.antt =====
-- The receive buffer that the push services of unix/src/parse.c and rtos/push.c both keep.
pub mod Buffer
