-- ===== src/Refs.antt =====
-- Branches and tags: scans, summaries, pages and routes, in apps/git_core/native/
-- fornacast_git_core/src/lib.rs.
pub mod Scan
pub mod Summary
pub mod Route
pub mod Tracking
mod Tests
