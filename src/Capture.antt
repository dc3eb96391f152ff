-- ===== src/Capture.antt =====
-- src/session-capture.js: the durable queue between the lifecycle hooks and the daemon.
pub mod Request
pub mod Queue
pub mod Process
pub mod Upsert
pub mod Leases
pub mod Backoff
pub mod Due
pub mod Status
pub mod Tests
