-- ===== src/Triggers.antt =====
-- src/trigger-match.js and src/cli/trigger-hook.js: the warnings and denials before a command runs.
pub mod Split
pub mod Command
pub mod Match
pub mod Sweep
pub mod Hook
mod Tests
