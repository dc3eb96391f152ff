-- ===== src/Facts.antt =====
-- src/facts.js: the temporal graph of facts about entities.
pub mod Ids
pub mod Dates
pub mod Graph
pub mod Retire
pub mod Merge
pub mod Query
pub mod Tests
