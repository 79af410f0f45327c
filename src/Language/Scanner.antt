-- ===== src/Language/Scanner.antt =====
-- `LanguageScanner` and `VerifiedBlobContent` of lib.rs: what a streamed blob is, and its language.
pub mod Content
use fornacast.Prelude.{
  Bool, true, false, ◌||◌, not, Option, none, some, List, [], ◌∷◌, String, if◌then◌else◌,
}
use fornacast.Prelude.Bytes.{Bytes, contains}
use fornacast.Language.Utf8
use fornacast.Language.Utf8.{Utf8Validator}
use fornacast.Language.Shebang
use fornacast.Language.Shebang.{ShebangClassifier}
use fornacast.Language.Filename.{filename_language}

pub record LanguageScanner : Type 0 where
  pub utf8 : Utf8Validator
  pub shebang : ShebangClassifier
  pub contains_nul : Bool

pub data VerifiedBlobContent : Type 0 where
  binary : VerifiedBlobContent
  text : Option String → VerifiedBlobContent

abbrev pub new : LanguageScanner
new = record { utf8 = Utf8.new; shebang = Shebang.new; contains_nul = false }

unfoldable pub push : LanguageScanner → Bytes → LanguageScanner
push s bytes = record {
  utf8 = Utf8.push s.utf8 bytes;
  shebang = Shebang.push s.shebang bytes;
  contains_nul = s.contains_nul || contains 0 bytes;
}

unfoldable pub finish : LanguageScanner → VerifiedBlobContent
finish s =
    if s.contains_nul || not (Utf8.complete s.utf8) then binary else text (Shebang.finish s.shebang)

abbrev or_else : Option String → Option String → Option String
or_else none b = b
or_else (some a) b = some a

abbrev unwrap_or : Option String → String → String
unwrap_or none d = d
unwrap_or (some a) d = a

unfoldable pub language : VerifiedBlobContent → Bytes → Option String
language binary path = none
language (text shebang_language) path =
    some (unwrap_or (or_else (filename_language path) shebang_language) "Other")

-- The visitor of a verified blob pushes each chunk that is read.
unfoldable pub push_all : LanguageScanner → List Bytes → LanguageScanner
push_all s [] = s
push_all s (chunk ∷ chunks) = push_all (push s chunk) chunks
