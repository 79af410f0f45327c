-- ===== src/Language/Filename.antt =====
-- Languages by file name: `filename_language` of lib.rs.
pub mod Laws
pub mod Listed
use fornacast.Prelude.{
  Bool, ◌||◌, Option, none, some, List, [], ◌∷◌, ◌++◌, String, if◌then◌else◌, ◌==◌, ℕ,
}
use fornacast.Prelude.Bytes.{
  Bytes, codes, bytes_eq, starts_with, last_segment, after_last, eq_ignore_ascii_case,
}

-- What stands behind the last dot, if there is one: `rposition` and the slice behind it.
unfoldable pub after_last_dot : Option Bytes → Bytes → Option Bytes
after_last_dot found [] = found
after_last_dot found (x ∷ s) =
    after_last_dot
      (if x == b'.' then some [] else elim found [ none ↦ none | some e ↦ some (e ++ x ∷ []) ]) s

abbrev pub Table : Type 0
Table = List (String × List String)

abbrev pub extensions : Table
extensions =
    ("Elixir", "ex" ∷ "exs" ∷ [])
    ∷ ("Erlang", "erl" ∷ "hrl" ∷ [])
    ∷ ("Rust", "rs" ∷ [])
    ∷ ("JavaScript", "js" ∷ "mjs" ∷ "cjs" ∷ "jsx" ∷ [])
    ∷ ("TypeScript", "ts" ∷ "tsx" ∷ "mts" ∷ "cts" ∷ [])
    ∷ ("CSS", "css" ∷ [])
    ∷ ("HTML", "html" ∷ "htm" ∷ "heex" ∷ [])
    ∷ ("Markdown", "md" ∷ "markdown" ∷ [])
    ∷ ("JSON", "json" ∷ [])
    ∷ ("TOML", "toml" ∷ [])
    ∷ ("YAML", "yml" ∷ "yaml" ∷ [])
    ∷ ("Shell", "sh" ∷ "bash" ∷ "zsh" ∷ [])
    ∷ ("Python", "py" ∷ [])
    ∷ ("Ruby", "rb" ∷ [])
    ∷ ("Go", "go" ∷ [])
    ∷ ("Java", "java" ∷ [])
    ∷ ("C", "c" ∷ "h" ∷ [])
    ∷ ("C++", "cc" ∷ "cpp" ∷ "cxx" ∷ "hpp" ∷ "hh" ∷ "hxx" ∷ [])
    ∷ ("SQL", "sql" ∷ [])
    ∷ []

pub any_extension : List String → Bytes → Bool
any_extension [] extension = Bool.false
any_extension (candidate ∷ cs) extension =
    eq_ignore_ascii_case extension (codes candidate) || any_extension cs extension

-- The first row of the table that names the extension.
pub find_language : Table → Bytes → Option String
unfolding any_extension
find_language [] extension = none
find_language ((language, candidates) ∷ rows) extension =
    if any_extension candidates extension then some language else find_language rows extension

pub name_language : Bytes → Option String
unfolding after_last_dot find_language eq_ignore_ascii_case
name_language filename =
    if bytes_eq filename (codes "Dockerfile") || starts_with (codes "Dockerfile.") filename
    then some "Dockerfile"
    else elim (after_last_dot none filename) [
      | none ↦ none
      | some extension ↦ find_language extensions extension
    ]

unfoldable pub filename_language : Bytes → Option String
unfolding name_language after_last
filename_language path = name_language (last_segment b'/' path)
