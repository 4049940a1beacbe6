-- ===== src/Unix.antt =====
-- unix/src/parse.c.
pub mod Push
