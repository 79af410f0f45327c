-- ===== src/Diff.antt =====
-- The patch and the lines that are kept of a changed file, in apps/git_core/native/
-- fornacast_git_core/src/lib.rs.
pub mod Hunk
pub mod Kept
mod Tests
