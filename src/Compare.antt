-- ===== src/Compare.antt =====
-- Budgets of a comparison of branches, in apps/git_core/native/fornacast_git_core/src/lib.rs.
pub mod Budgets
pub mod Charges
mod Tests
