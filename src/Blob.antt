-- ===== src/Blob.antt =====
-- Bounded decoding of Git objects:
-- apps/git_core/native/fornacast_git_core/src/bounded_blob.rs.
pub mod Failure
pub mod Delta
mod Tests
pub mod Run
pub mod Zlib
pub mod Sink
pub mod Stream
pub mod Objects
pub mod Header
pub mod Loose
pub mod Frames
pub mod Decode
pub mod Budget
