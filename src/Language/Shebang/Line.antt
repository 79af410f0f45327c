-- ===== src/Language/Shebang/Line.antt =====
-- The interpreter line as a whole: the words of the first line of the file, read one by one.
use fornacast.Prelude.{
  Bool, false, ◌&&◌, ◌||◌, Option, none, some, List, [], ◌∷◌, ◌++◌, String, length, ltb, ◌==◌,
  if◌then◌else◌,
}
use fornacast.Prelude.Bytes.{Bytes, codes, bytes_eq, is_ascii_whitespace}
use fornacast.Language.Shebang.{
  ShebangMode, interpreter, env_command, token_limit, shebang_basename, shebang_token_language,
  shebang_env_assignment, shebang_env_option,
}

-- The bytes before the first line feed or carriage return.
unfoldable pub first_line : Bytes → Bytes
first_line [] = []
first_line (b ∷ bs) = let rest = first_line bs in if b == b'\n' || b == b'\r' then [] else b ∷ rest

abbrev pub flush : Bytes → List Bytes → List Bytes
flush [] ws = ws
flush (x ∷ w) ws = (x ∷ w) ∷ ws

-- The maximal runs of bytes that are no white space; `cur` is the run that has begun.
unfoldable pub words : Bytes → Bytes → List Bytes
words cur [] = flush cur []
words cur (b ∷ bs) =
    let inside = words (cur ++ b ∷ []) bs in
    let outside = words [] bs in if is_ascii_whitespace b then flush cur outside else inside

abbrev pub language_of : Bytes → Option String
language_of w = shebang_token_language (shebang_basename w)

abbrev pub Reader : Type 0
Reader = ShebangMode → Bool → Option String

-- The meaning of one word, given the meaning of those behind it.
abbrev pub interpret_word : Bytes → Reader → Reader
interpret_word w rest interpreter skip =
    if bytes_eq (shebang_basename w) (codes "env") then rest env_command skip else language_of w
interpret_word w rest env_command skip =
    if skip
    then rest env_command false
    else if shebang_env_assignment w
    then rest env_command skip
    else elim (shebang_env_option w) [ some s ↦ rest env_command s | none ↦ language_of w ]

-- What the words say. A word of more than 128 bytes ends the reading.
unfoldable pub interpret : List Bytes → Reader
interpret [] mode skip = none
interpret (w ∷ ws) mode skip =
    if ltb token_limit (length w) then none else interpret_word w (interpret ws) mode skip

unfoldable pub shebang_line : Bytes → Option String
unfolding first_line words interpret
shebang_line (x ∷ y ∷ rest) =
    if x == b'#' && y == b'!'
    then interpret (words [] (first_line rest)) interpreter false
    else none
shebang_line _ = none
