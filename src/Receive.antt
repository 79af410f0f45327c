-- ===== src/Receive.antt =====
-- The receiving side of a push, and the packs that are sent: apps/git_core/native/
-- fornacast_git_core/src/lib.rs.
pub mod Commands
pub mod Updates
pub mod Atomic
pub mod PackHeader
pub mod Reachable
mod Tests
