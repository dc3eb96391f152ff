-- ===== src/Predicates.antt =====
-- src/predicates.js: the registry of predicates and the fold that every write goes through.
pub mod Spelling
pub mod Registry
pub mod Tests
