-- ===== src/Diff/Hunk.antt =====
-- `RetainedDiffSource`, the consumer of hunks `StructuredDiffConsumer` and `diff_line_content`. The
-- hunks come from gix. A line number is a `u32`.
use fornacast.Prelude.{
  ℕ, zero, suc, ◌+◌, ◌/◌, ◌%◌, min, Bool, true, false, ◌||◌, Option, none, some, List, [], ◌∷◌,
  ◌++◌, ltb, leb, ◌==◌, if◌then◌else◌, length,
}
use fornacast.Prelude.Bytes.{Bytes, codes, last_is}
use fornacast.Prelude.Word.{checked_add, saturating_sub}
use fornacast.Native.{NativeError, native_error}
use fornacast.Native.Clock.{Clock, Timed, pure, check_deadline, ◌>>◌}

pub record RetainedDiffSource : Type 0 where
  pub patch : Bytes
  pub limit : ℕ
  pub truncated : Bool

abbrev pub new : ℕ → RetainedDiffSource
new limit = record { patch = []; limit = limit; truncated = false }

-- `try_fold` of the sizes.
unfoldable pub parts_size : ℕ → List Bytes → Option ℕ
parts_size size [] = some size
parts_size size (part ∷ parts) = elim (checked_add size (length part)) [
  | none ↦ none
  | some next ↦ parts_size next parts
]

unfoldable pub extend_parts : Bytes → List Bytes → Bytes
extend_parts patch [] = patch
extend_parts patch (part ∷ parts) = extend_parts (patch ++ part) parts

-- The parts with their size, where it does not overflow.
abbrev pub append_sized : Option ℕ → List Bytes → RetainedDiffSource → Bool × RetainedDiffSource
append_sized none parts s = (false, record s { truncated = true })
append_sized (some size) parts s =
    if leb size (saturating_sub s.limit (length s.patch))
    then (true, record s { patch = extend_parts s.patch parts })
    else (false, record s { truncated = true })

unfoldable pub append_parts : List Bytes → RetainedDiffSource → Bool × RetainedDiffSource
append_parts parts s = if s.truncated then (false, s) else append_sized (parts_size 0 parts) parts s

pub data LineKind : Type 0 where
  hunk context added deleted : LineKind

-- `NativeDiffLine`
pub record DiffLine : Type 0 where
  pub kind : LineKind
  pub old_line : Option ℕ
  pub new_line : Option ℕ
  pub content : Bytes

pub record StructuredDiffConsumer : Type 0 where
  pub source : RetainedDiffSource
  pub lines : List DiffLine
  pub file_truncated : Bool
  pub old_missing_final_newline_at : Option ℕ
  pub new_missing_final_newline_at : Option ℕ

abbrev pub is_at : Option ℕ → Option ℕ → Bool
is_at none line = false
is_at (some n) none = false
is_at (some n) (some line) = line == n

abbrev pub needs_marker : LineKind → Option ℕ → Option ℕ → StructuredDiffConsumer → Bool
needs_marker hunk old_line new_line c = false
needs_marker deleted old_line new_line c = is_at c.old_missing_final_newline_at old_line
needs_marker added old_line new_line c = is_at c.new_missing_final_newline_at new_line
needs_marker context old_line new_line c =
    is_at c.old_missing_final_newline_at old_line || is_at c.new_missing_final_newline_at new_line

-- `strip_suffix` of one byte.
unfoldable pub without_last : Bytes → Bytes
without_last [] = []
without_last (b ∷ []) = []
without_last (b ∷ c ∷ bs) = b ∷ without_last (c ∷ bs)

unfoldable pub diff_line_content : Bytes → Bytes
diff_line_content content =
    if last_is b'\n' content
    then (let without_lf = without_last content in
        if last_is b'\r' without_lf then without_last without_lf else without_lf)
    else content

abbrev pub no_final_newline_marker : Bytes
no_final_newline_marker = codes "\\ No newline at end of file\n"

abbrev pub line_parts : Bool → Bytes → Bytes → List Bytes
line_parts true content prefix =
    prefix
    ∷ content
    ∷ (if last_is b'\n' content then [] else b'\n' ∷ [])
    ∷ no_final_newline_marker
    ∷ []
line_parts false content prefix =
    if last_is b'\n' content then prefix ∷ content ∷ [] else prefix ∷ content ∷ (b'\n' ∷ []) ∷ []

abbrev pub keep_line :
    Bool × RetainedDiffSource → DiffLine → StructuredDiffConsumer → StructuredDiffConsumer
keep_line (true, s) line c = record c { source = s; lines = c.lines ++ line ∷ [] }
keep_line (false, s) line c = record c { source = s; file_truncated = true }

abbrev pub line_of : LineKind → Option ℕ → Option ℕ → Bytes → DiffLine
line_of kind old_line new_line content = record {
  kind = kind;
  old_line = old_line;
  new_line = new_line;
  content = diff_line_content content;
}

unfoldable pub append_line :
    LineKind → Option ℕ → Option ℕ → Bytes → Bytes → StructuredDiffConsumer → StructuredDiffConsumer
append_line kind old_line new_line content prefix c =
    keep_line
      (append_parts (line_parts (needs_marker kind old_line new_line c) content prefix) c.source)
      (line_of kind old_line new_line content) c

-- What gix gives: the kinds of lines of a hunk, and its header.
pub data DiffLineKind : Type 0 where
  kept add remove : DiffLineKind

pub record HunkHeader : Type 0 where
  pub before_hunk_start : ℕ
  pub before_hunk_len : ℕ
  pub after_hunk_start : ℕ
  pub after_hunk_len : ℕ

-- Decimal digits; ten are enough for a `u32`.
unfoldable pub decimal : ℕ → ℕ → Bytes → Bytes
decimal zero n digits = digits
decimal (suc rounds) n digits =
    let more = decimal rounds (n / 10) ((b'0' + n % 10) ∷ digits) in
    if ltb n 10 then (b'0' + n) ∷ digits else more

abbrev pub shown : ℕ → Bytes
shown n = decimal 10 n []

abbrev pub displayed_start : ℕ → ℕ → ℕ
displayed_start start len = if len == 0 then saturating_sub start 1 else start

abbrev pub header_content : HunkHeader → Bytes
header_content h =
    codes "@@ -"
    ++ shown (displayed_start h.before_hunk_start h.before_hunk_len)
    ++ codes ","
    ++ shown h.before_hunk_len
    ++ codes " +"
    ++ shown (displayed_start h.after_hunk_start h.after_hunk_len)
    ++ codes ","
    ++ shown h.after_hunk_len
    ++ codes " @@"

-- `saturating_add(1)` of a `u32`.
abbrev pub next_line : ℕ → ℕ
next_line n = min (n + 1) 4294967295

abbrev pub diff_timeout : NativeError
diff_timeout = native_error "TimedOut" "commit diff exceeded the five-second deadline"

unfoldable pub consume_lines :
    Clock
    → List (DiffLineKind × Bytes)
    → ℕ
    → ℕ
    → StructuredDiffConsumer
    → Timed StructuredDiffConsumer
consume_lines late [] old_line new_line c = pure c
consume_lines late ((kept, content) ∷ lines) old_line new_line c = do
  check_deadline late diff_timeout
  consume_lines late lines (next_line old_line) (next_line new_line)
      (append_line context (some old_line) (some new_line) content (codes " ") c)
consume_lines late ((add, content) ∷ lines) old_line new_line c = do
  check_deadline late diff_timeout
  consume_lines late lines old_line (next_line new_line)
      (append_line added none (some new_line) content (codes "+") c)
consume_lines late ((remove, content) ∷ lines) old_line new_line c = do
  check_deadline late diff_timeout
  consume_lines late lines (next_line old_line) new_line
      (append_line deleted (some old_line) none content (codes "-") c)

abbrev pub with_header : HunkHeader → StructuredDiffConsumer → StructuredDiffConsumer
with_header h =
    append_line hunk (some (displayed_start h.before_hunk_start h.before_hunk_len))
      (some (displayed_start h.after_hunk_start h.after_hunk_len)) (header_content h) []

unfoldable pub consume_hunk :
    Clock
    → HunkHeader
    → List (DiffLineKind × Bytes)
    → StructuredDiffConsumer
    → Timed StructuredDiffConsumer
consume_hunk late h lines c = do
  check_deadline late diff_timeout
  consume_lines late lines h.before_hunk_start h.after_hunk_start (with_header h c)
