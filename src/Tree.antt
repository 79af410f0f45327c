-- ===== src/Tree.antt =====
-- Tree objects: the checks on entries, the listing of a tree and the choice of a page, in
-- apps/git_core/native/fornacast_git_core/src/lib.rs.
pub mod Entries
pub mod Order
pub mod Pass
pub mod Canonical
pub mod Lookup
pub mod States
pub mod Retain
pub mod Batches
pub mod Listing
mod Tests
