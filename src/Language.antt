-- ===== src/Language.antt =====
-- Language detection for repository statistics: apps/git_core/native/fornacast_git_core/src/lib.rs,
-- `Utf8Validator`, `ShebangClassifier`, `LanguageScanner`, `VerifiedBlobContent` and the tables
-- that they read.
pub mod Utf8
mod Tests
pub mod Shebang
pub mod Filename
pub mod Scanner
