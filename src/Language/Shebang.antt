-- ===== src/Language/Shebang.antt =====
-- The interpreter line classifier, `ShebangClassifier` of lib.rs and the tables that it reads. The
-- 128-byte token buffer is the list of the `token_len` bytes that are in use.
pub mod Line
pub mod Steps
pub mod Refines
use fornacast.Prelude.{
  ℕ, ◌+◌, Bool, true, false, ◌&&◌, ◌||◌, not, Option, none, some, List, [], ◌∷◌, ◌++◌, String,
  length, ltb, ◌==◌, if◌then◌else◌,
}
use fornacast.Prelude.Bytes.{
  Bytes, codes, bytes_eq, starts_with, last_segment, after_last, all, contains, is_ascii_alphabetic,
  is_ascii_alphanumeric, is_ascii_whitespace,
}
use fornacast.Prelude.Word.{saturating_add}

pub data ShebangMode : Type 0 where
  interpreter env_command : ShebangMode

pub record ShebangClassifier : Type 0 where
  pub position : ℕ
  pub active : Bool
  pub mode : ShebangMode
  pub skip_env_argument : Bool
  pub token : Bytes
  pub token_overflow : Bool
  pub language : Option String

-- `[u8; 128]`
abbrev pub token_limit : ℕ
token_limit = 128

abbrev pub new : ShebangClassifier
new = record {
  position = 0;
  active = true;
  mode = interpreter;
  skip_env_argument = false;
  token = [];
  token_overflow = false;
  language = none;
}

abbrev one_of : List String → Bytes → Bool
one_of [] b = false
one_of (s ∷ ss) b = bytes_eq b (codes s) || one_of ss b

unfoldable pub shebang_token_language : Bytes → Option String
shebang_token_language token =
    if one_of ("elixir" ∷ "escript" ∷ []) token
    then some "Elixir"
    else if one_of ("python" ∷ "python3" ∷ []) token
    then some "Python"
    else if one_of ("node" ∷ "deno" ∷ "bun" ∷ []) token
    then some "JavaScript"
    else if one_of ("bash" ∷ "sh" ∷ "zsh" ∷ []) token
    then some "Shell"
    else if one_of ("ruby" ∷ []) token
    then some "Ruby"
    else none

unfoldable pub shebang_basename : Bytes → Bytes
unfolding after_last
shebang_basename = last_segment b'/'

-- What stands before the first `=`, if there is one.
pub before_equals : Bytes → Option Bytes
before_equals [] = none
before_equals (x ∷ s) =
    let rest = before_equals s in
    if x == b'=' then some [] else elim rest [ none ↦ none | some r ↦ some (x ∷ r) ]

is_name_start : Bytes → Bool
is_name_start [] = false
is_name_start (b ∷ name) = is_ascii_alphabetic b || b == b'_'

unfoldable pub shebang_env_assignment : Bytes → Bool
unfolding before_equals is_name_start
shebang_env_assignment token = elim (before_equals token) [
  | none ↦ false
  | some name ↦ is_name_start name && all (λ b. is_ascii_alphanumeric b || b == b'_') name
]

unfoldable pub shebang_env_option : Bytes → Option Bool
shebang_env_option token =
    if one_of
      ("-i" ∷ "--ignore-environment" ∷ "-0" ∷ "--null" ∷ "-v" ∷ "--debug" ∷ "--" ∷ "-S"
        ∷ "--split-string" ∷ [])
      token
    then some false
    else if one_of ("-u" ∷ "--unset" ∷ "-C" ∷ "--chdir" ∷ []) token
    then some true
    else if starts_with (codes "-u") token && ltb 2 (length token)
    then some false
    else if starts_with (codes "-C") token && ltb 2 (length token)
    then some false
    else if starts_with (codes "--unset=") token || starts_with (codes "--chdir=") token
    then some false
    else none

-- `match self.mode` of `finish_token`, on a token that fits the buffer.
abbrev decide_language : ShebangClassifier → ShebangClassifier
decide_language c = record c {
  language = shebang_token_language (shebang_basename c.token);
  active = false;
}

pub finish_mode : ShebangMode → ShebangClassifier → ShebangClassifier
finish_mode interpreter c =
    if bytes_eq (shebang_basename c.token) (codes "env")
    then record c { mode = env_command }
    else decide_language c
finish_mode env_command c =
    if c.skip_env_argument
    then record c { skip_env_argument = false }
    else if shebang_env_assignment c.token
    then c
    else elim (shebang_env_option c.token) [
      | some skip_argument ↦ record c { skip_env_argument = skip_argument }
      | none ↦ decide_language c
    ]

abbrev pub is_nil : Bytes → Bool
is_nil [] = true
is_nil (x ∷ s) = false

unfoldable pub finish_token : ShebangClassifier → ShebangClassifier
unfolding finish_mode
finish_token c =
    if is_nil c.token && not c.token_overflow
    then c
    else if c.token_overflow
    then record c { active = false; token = []; token_overflow = false }
    else record (finish_mode c.mode c) { token = []; token_overflow = false }

-- The arms of `match self.position`.
unfoldable pub push_byte : ShebangClassifier → ℕ → ShebangClassifier
push_byte c b =
    if c.position == 0
    then record c { active = b == b'#' }
    else if c.position == 1
    then record c { active = b == b'!' }
    else if b == b'\n' || b == b'\r'
    then record (finish_token c) { active = false }
    else if is_ascii_whitespace b
    then finish_token c
    else if ltb (length c.token) token_limit
    then record c { token = c.token ++ b ∷ [] }
    else record c { token_overflow = true }

abbrev pub advance : ShebangClassifier → ShebangClassifier
advance c = record c { position = saturating_add c.position 1 }

unfoldable pub push : ShebangClassifier → Bytes → ShebangClassifier
push c [] = c
push c (b ∷ bs) = if not c.active then c else push (advance (push_byte c b)) bs

unfoldable pub finish : ShebangClassifier → Option String
finish c = (if c.active then finish_token c else c).language
