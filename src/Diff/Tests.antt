-- ===== src/Diff/Tests.antt =====
-- A small hunk, and the theorems at concrete inputs.
use fornacast.Prelude.{false, none, List, [], ◌∷◌, ok, ◌≡◌, refl, arith}
use fornacast.Prelude.Bytes.{Bytes, codes}
use fornacast.Native.Clock.{Clock, check_deadline}
use fornacast.Diff.Hunk.{
  new, parts_size, extend_parts, append_parts, StructuredDiffConsumer, without_last,
  diff_line_content, append_line, DiffLineKind, kept, remove, HunkHeader, decimal, consume_lines,
  consume_hunk,
}
use fornacast.Diff.Kept.{
  Within, Beginning, numbered, header_line, consume_hunk-Beginning, append_all, append_all-Within,
}

abbrev never : Clock
never n = false

abbrev consumer : StructuredDiffConsumer
consumer = record {
  source = new 24;
  lines = [];
  file_truncated = false;
  old_missing_final_newline_at = none;
  new_missing_final_newline_at = none;
}

abbrev header : HunkHeader
header = record {
  before_hunk_start = 4;
  before_hunk_len = 2;
  after_hunk_start = 4;
  after_hunk_len = 1;
}

abbrev lines : List (DiffLineKind × Bytes)
lines = (kept, codes "a\n") ∷ (remove, codes "b\n") ∷ []

-- The header takes 16 bytes with its end of line, each line three, so that all fit.
abbrev after : StructuredDiffConsumer
after = record consumer {
  source = record (new 24) { patch = codes "@@ -4,2 +4,1 @@\n a\n-b\n" };
  lines = header_line header ∷ numbered lines 4 4;
}

consumed : consume_hunk never header lines consumer 0 ≡ ok (after, 3)
unfolding consume_hunk consume_lines check_deadline append_line append_parts parts_size extend_parts
    decimal diff_line_content without_last
consumed = refl

consume_hunk-Beginning_example : Beginning consumer after (header_line header ∷ numbered lines 4 4)
consume_hunk-Beginning_example = consume_hunk-Beginning never header lines consumer 0 consumed

append_all-Within_example :
    Within (append_all ((codes "ab" ∷ []) ∷ (codes "cdef" ∷ []) ∷ []) (new 3))
append_all-Within_example =
    append_all-Within ((codes "ab" ∷ []) ∷ (codes "cdef" ∷ []) ∷ []) (new 3) (omega arith)
