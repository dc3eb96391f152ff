-- ===== src/Documents.antt =====
-- src/db.js: the documents, the vault files they stand for, and what is left of purged documents.
pub mod Tags
pub mod Rows
pub mod Writing
pub mod Vault
pub mod Purge
pub mod History
mod Tests
