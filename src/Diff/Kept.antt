-- ===== src/Diff/Kept.antt =====
-- About `StructuredDiffConsumer` and `RetainedDiffSource`: what is kept of a hunk.
use fornacast.Prelude.{
  ℕ, suc, ◌+◌, ◌≤◌, ◌≡◌, ◌⊎◌, inl, inr, refl, sym, ap, ◌∙◌, subst, Bool, true, false, Option, none,
  some, List, [], ◌∷◌, ◌++◌, if◌then◌else◌, length, take, length-append, append_assoc, append-nil,
  arith, Bool-cases, Option-cases, ok,
}
use fornacast.Prelude.Bytes.{Bytes, codes}
use fornacast.Prelude.Word.{checked_add}
use fornacast.Native.Clock as Clock
use fornacast.Native.Clock.{Clock, check_deadline}
use fornacast.Diff.Hunk.{
  RetainedDiffSource, parts_size, extend_parts, append_sized, append_parts, LineKind, hunk, context,
  added, deleted, DiffLine, StructuredDiffConsumer, needs_marker, line_parts, keep_line, line_of,
  append_line, DiffLineKind, kept, add, remove, HunkHeader, displayed_start, header_content,
  next_line, diff_timeout, consume_lines, with_header, consume_hunk,
}

-- The sizes of some parts.
abbrev total : List Bytes → ℕ
total [] = 0
total (part ∷ parts) = length part + total parts

parts_size-total :
    (parts : List Bytes) (size : ℕ) {n : ℕ}
    → parts_size size parts ≡ some n
    → n ≡ size + total parts
unfolding parts_size
parts_size-total [] size h = ground arith
parts_size-total (part ∷ parts) size {n} h = elim (Option-cases (checked_add size (length part))) [
  | inl overflow ↦ absurd (ground arith)
  | inr (next, e) ↦
      let rest : parts_size next parts ≡ some n = ground arith in
      let is : next ≡ size + length part = ground arith in
      omega (arith, parts_size-total parts next rest, is)
]

length-extend_parts :
    (parts : List Bytes) (patch : Bytes)
    → length (extend_parts patch parts) ≡ length patch + total parts
unfolding extend_parts
length-extend_parts [] patch = omega arith
length-extend_parts (part ∷ parts) patch =
    omega (arith, length-extend_parts parts (patch ++ part), length-append patch part)

abbrev pub Within : RetainedDiffSource → Type 0
Within s = length s.patch ≤ s.limit

append_sized-Within :
    (o : Option ℕ) (parts : List Bytes) (s : RetainedDiffSource)
    → ((n : ℕ) → o ≡ some n → n ≡ 0 + total parts)
    → Within s
    → Within (append_sized o parts s).1
append_sized-Within none parts s h w = w
append_sized-Within (some n) parts s h w =
    ground (arith, h n refl, length-extend_parts parts s.patch)

append_parts-Within :
    (parts : List Bytes) (s : RetainedDiffSource) → Within s → Within (append_parts parts s).1
unfolding append_parts
append_parts-Within parts s w = elim (Bool-cases s.truncated) [
  | inl stopped ↦ ground arith
  | inr open_ ↦
      subst (λ b. Within (if b then (false, s) else append_sized (parts_size 0 parts) parts s).1)
        (sym open_)
        (append_sized-Within (parts_size 0 parts) parts s (λ n e. parts_size-total parts 0 e) w)
]

-- A part that does not fit stops the patch for good.
append_sized-stops :
    (o : Option ℕ) (parts : List Bytes) (s : RetainedDiffSource)
    → s.truncated ≡ false
    → (((append_sized o parts s).0 ≡ true) × ((append_sized o parts s).1.truncated ≡ false))
      ⊎ (((append_sized o parts s).0 ≡ false) × ((append_sized o parts s).1.truncated ≡ true))
append_sized-stops none parts s h = inr (refl, refl)
append_sized-stops (some n) parts s h = ground arith

append_parts-stops :
    (parts : List Bytes) (s : RetainedDiffSource)
    → ((s.truncated ≡ false)
        × ((append_parts parts s).0 ≡ true)
        × ((append_parts parts s).1.truncated ≡ false))
      ⊎ (((append_parts parts s).0 ≡ false) × ((append_parts parts s).1.truncated ≡ true))
unfolding append_parts
append_parts-stops parts s = elim (Bool-cases s.truncated) [
  | inl stopped ↦ inr (ground arith, ground arith)
  | inr open_ ↦ ground (arith, append_sized-stops (parts_size 0 parts) parts s)
]

-- A line is kept, or the patch is stopped and the file said to be truncated.
abbrev KeptOrStopped : StructuredDiffConsumer → StructuredDiffConsumer → DiffLine → Type 0
KeptOrStopped c c' line =
    ((c.source.truncated ≡ false)
      × (c'.lines ≡ c.lines ++ line ∷ [])
      × (c.file_truncated ≡ true → c'.file_truncated ≡ true))
    ⊎ ((c'.lines ≡ c.lines) × (c'.source.truncated ≡ true) × (c'.file_truncated ≡ true))

keep_line-cases :
    (r : Bool × RetainedDiffSource) (line : DiffLine) (c : StructuredDiffConsumer)
    → ((c.source.truncated ≡ false) × (r.0 ≡ true) × (r.1.truncated ≡ false))
      ⊎ ((r.0 ≡ false) × (r.1.truncated ≡ true))
    → KeptOrStopped c (keep_line r line c) line
keep_line-cases (true, s) line c (inl (o, h, k)) = inl (o, refl, λ f. f)
keep_line-cases (true, s) line c (inr (h, k)) = cc
keep_line-cases (false, s) line c (inl (o, h, k)) = cc
keep_line-cases (false, s) line c (inr (h, k)) = inr (refl, k, refl)

append_line-cases :
    (kind : LineKind) (old_line new_line : Option ℕ) (content prefix : Bytes)
    (c : StructuredDiffConsumer)
    → KeptOrStopped c
        (append_line kind old_line new_line content prefix c)
        (line_of kind old_line new_line content)
unfolding append_line
append_line-cases kind old_line new_line content prefix c =
    let parts = line_parts (needs_marker kind old_line new_line c) content prefix in
    keep_line-cases (append_parts parts c.source) (line_of kind old_line new_line content) c
      (append_parts-stops parts c.source)

-- The lines that are kept are the first of `all`, and the file is said to be truncated unless they
-- are all of them.
abbrev pub Beginning : StructuredDiffConsumer → StructuredDiffConsumer → List DiffLine → Type 0
Beginning c c' all =
    (m : ℕ) × (c'.lines ≡ c.lines ++ take m all)
    × (c.source.truncated ≡ true → m ≡ 0)
    × ((m ≡ length all) ⊎ (c'.file_truncated ≡ true))
    × (c.file_truncated ≡ true → c'.file_truncated ≡ true)

nothing_more : (c : StructuredDiffConsumer) → Beginning c c []
nothing_more c = (0, sym (append-nil c.lines), λ h. refl, inl refl, λ h. h)

one_more :
    (c c1 c' : StructuredDiffConsumer) (line : DiffLine) (rest : List DiffLine)
    → KeptOrStopped c c1 line
    → Beginning c1 c' rest
    → Beginning c c' (line ∷ rest)
one_more c c1 c' line rest (inl (o, l, f)) (m, lines, stopped, whole, mono) = (
  suc m,
  lines ∙ ap (λ x. x ++ take m rest) l ∙ append_assoc c.lines (line ∷ []) (take m rest),
  λ h. absurd (cc),
  ground (arith, whole),
  λ h. mono (f h),
)
one_more c c1 c' line rest (inr (l, t, f)) (m, lines, stopped, whole, mono) =
    let none_left : m ≡ 0 = stopped t in
    (
      0,
      subst (λ k. c'.lines ≡ c1.lines ++ take k rest) none_left lines ∙ ap (λ x. x ++ []) l,
      λ h. refl,
      inr (mono f),
      λ h. mono f,
    )

-- The lines of a hunk with their numbers on the two sides.
abbrev pub numbered : List (DiffLineKind × Bytes) → ℕ → ℕ → List DiffLine
numbered [] old_line new_line = []
numbered ((kept, content) ∷ lines) old_line new_line =
    line_of context (some old_line) (some new_line) content
    ∷ numbered lines (next_line old_line) (next_line new_line)
numbered ((add, content) ∷ lines) old_line new_line =
    line_of added none (some new_line) content ∷ numbered lines old_line (next_line new_line)
numbered ((remove, content) ∷ lines) old_line new_line =
    line_of deleted (some old_line) none content ∷ numbered lines (next_line old_line) new_line

consume_lines-Beginning :
    (late : Clock) (lines : List (DiffLineKind × Bytes)) (old_line new_line : ℕ)
    (c : StructuredDiffConsumer) (n : ℕ) {c' : StructuredDiffConsumer} {k : ℕ}
    → consume_lines late lines old_line new_line c n ≡ ok (c', k)
    → Beginning c c' (numbered lines old_line new_line)
unfolding consume_lines
consume_lines-Beginning late [] old_line new_line c n {c'} h =
    let same : c ≡ c' = cc in subst (λ x. Beginning c x []) same (nothing_more c)
consume_lines-Beginning late ((kept, content) ∷ lines) old_line new_line c n {c'} h =
    let (_, n1, _, h1) = Clock.>>=-eq-ok (check_deadline late diff_timeout) _ n h in
    let c1 = append_line context (some old_line) (some new_line) content (codes " ") c in
    one_more c c1 c' _ _
      (append_line-cases context (some old_line) (some new_line) content (codes " ") c)
      (consume_lines-Beginning late lines (next_line old_line) (next_line new_line) c1 n1 h1)
consume_lines-Beginning late ((add, content) ∷ lines) old_line new_line c n {c'} h =
    let (_, n1, _, h1) = Clock.>>=-eq-ok (check_deadline late diff_timeout) _ n h in
    let c1 = append_line added none (some new_line) content (codes "+") c in
    one_more c c1 c' _ _ (append_line-cases added none (some new_line) content (codes "+") c)
      (consume_lines-Beginning late lines old_line (next_line new_line) c1 n1 h1)
consume_lines-Beginning late ((remove, content) ∷ lines) old_line new_line c n {c'} h =
    let (_, n1, _, h1) = Clock.>>=-eq-ok (check_deadline late diff_timeout) _ n h in
    let c1 = append_line deleted (some old_line) none content (codes "-") c in
    one_more c c1 c' _ _ (append_line-cases deleted (some old_line) none content (codes "-") c)
      (consume_lines-Beginning late lines (next_line old_line) new_line c1 n1 h1)

-- The line of the header of a hunk.
abbrev pub header_line : HunkHeader → DiffLine
header_line h =
    line_of hunk (some (displayed_start h.before_hunk_start h.before_hunk_len))
      (some (displayed_start h.after_hunk_start h.after_hunk_len)) (header_content h)

-- What is kept of a hunk that is consumed in time is a beginning of its header and its lines, each
-- numbered on the sides where it stands; unless it is all, the file is said to be truncated.
pub consume_hunk-Beginning :
    (late : Clock) (h : HunkHeader) (lines : List (DiffLineKind × Bytes))
    (c : StructuredDiffConsumer) (n : ℕ) {c' : StructuredDiffConsumer} {k : ℕ}
    → consume_hunk late h lines c n ≡ ok (c', k)
    → Beginning c c' (header_line h ∷ numbered lines h.before_hunk_start h.after_hunk_start)
unfolding consume_hunk
consume_hunk-Beginning late h lines c n {c'} e =
    let (_, n1, _, e1) = Clock.>>=-eq-ok (check_deadline late diff_timeout) _ n e in
    one_more c (with_header h c) c' _ _
      (append_line-cases hunk (some (displayed_start h.before_hunk_start h.before_hunk_len))
        (some (displayed_start h.after_hunk_start h.after_hunk_len)) (header_content h) [] c)
      (consume_lines-Beginning late lines h.before_hunk_start h.after_hunk_start (with_header h c)
        n1 e1)

-- Whatever is appended, the patch stays within its limit.
unfoldable pub append_all : List (List Bytes) → RetainedDiffSource → RetainedDiffSource
append_all [] s = s
append_all (parts ∷ rest) s = append_all rest (append_parts parts s).1

pub append_all-Within :
    (appended : List (List Bytes)) (s : RetainedDiffSource)
    → Within s
    → Within (append_all appended s)
unfolding append_all
append_all-Within [] s w = w
append_all-Within (parts ∷ rest) s w =
    append_all-Within rest (append_parts parts s).1 (append_parts-Within parts s w)
