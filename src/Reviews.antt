-- ===== src/Reviews.antt =====
-- src/fact-reviews.js: a manual review of the live facts of one subject and predicate.
pub mod Items
pub mod Targets
pub mod Accepted
pub mod Coverage
pub mod State
pub mod Tests
