-- ===== src/Search.antt =====
-- The search page of the documentation: docs/html/search/search.js.
pub mod Ids
pub mod Escape
pub mod Results
pub mod Nav
pub mod Box
pub mod Query
pub mod Windows
pub mod Page
pub mod Site
pub mod Sites
mod Tests
