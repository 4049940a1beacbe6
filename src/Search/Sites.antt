-- ===== src/Search/Sites.antt =====
-- The two documentation sites of the repository, as the search meets them.
pub mod Entry
pub mod Sdk
pub mod Yun
pub mod Laws
mod Tests
