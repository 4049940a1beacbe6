-- ===== src/Dynsections.antt =====
-- Folding in the documentation pages: docs/html/dynsections.js.
pub mod Jquery
pub mod Rows
pub mod Sections
mod Tests
