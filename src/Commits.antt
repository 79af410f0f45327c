-- ===== src/Commits.antt =====
-- Listings of commits of apps/git_core/native/fornacast_git_core/src/lib.rs.
pub mod Nodes
pub mod Ordering
pub mod Graph
pub mod Listing
pub mod History
pub mod Load
pub mod Range
pub mod Walk
mod Tests
