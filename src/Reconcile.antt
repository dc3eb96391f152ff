-- ===== src/Reconcile.antt =====
-- src/reconciliation.js: old notes and contested facts are reconciled from the sources they cite.
pub mod Sources
pub mod Notes
pub mod Review
pub mod Rounds
mod Tests
