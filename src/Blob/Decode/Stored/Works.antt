-- ===== src/Blob/Decode/Stored/Works.antt =====
-- The inflater of the tests works on an input that ends with its only byte 255.
use fornacast.Prelude.{
  ℕ, zero, suc, ◌+◌, ◌-◌, ◌≤◌, ◌<◌, ◌≡◌, ◌≢◌, refl, sym, ap, ◌∙◌, Bool, true, false, Bool-cases,
  inl, inr, [], ◌∷◌, ◌++◌, length, drop, ◌==◌, All, arith,
}
use fornacast.Prelude.Bytes.{Bytes}
use fornacast.Blob.Stream.{is_end}
use fornacast.Blob.Stream.Inflating.{Works}
use fornacast.Blob.Decode.Stored.{Scan, scan, Stored, status_of, stored}

abbrev pub Plain : Bytes → Type 0
Plain = All (λ x. x ≢ 255)

abbrev pub Valid : Stored → Bytes → Bytes → Type 0
Valid d input left = (d.over ≡ false) × (input ≡ left ++ 255 ∷ []) × Plain left

abbrev Going : Bytes → Bytes → Bytes → Scan → Type 0
Going chunk rest left s =
    (later : Bytes) × (left ≡ s.written ++ later)
    × (drop s.consumed chunk ++ rest ≡ later ++ 255 ∷ [])
    × Plain later

abbrev Ends : Bytes → Bytes → Bytes → ℕ → Scan → Type 0
Ends chunk rest left room s =
    (length s.written ≤ room)
    × (s.ended ≡ true → drop s.consumed chunk ++ rest ≡ [])
    × (s.ended ≡ false → Going chunk rest left s)
    × (s.ended ≡ false → 0 < room → 0 < length chunk → 0 < s.consumed + length s.written)

at_end :
    (b : ℕ) (bs left : Bytes) → b == 255 ≡ true → b ∷ bs ≡ left ++ 255 ∷ [] → Plain left → bs ≡ []
at_end b bs [] ends split clean = cc
at_end b bs (x ∷ left) ends split (other, clean) =
    let same : b ≡ x = cc split in
    let last : b ≡ 255 = ground arith in absurd (other (sym same ∙ last))

behind_first :
    (b : ℕ) (bs left : Bytes)
    → b == 255 ≡ false
    → b ∷ bs ≡ left ++ 255 ∷ []
    → Plain left
    → (left' : Bytes) × (left ≡ b ∷ left') × (bs ≡ left' ++ 255 ∷ []) × Plain left'
behind_first b bs [] goes_on split clean = let same : b ≡ 255 = cc split in absurd (ground arith)
behind_first b bs (x ∷ left) goes_on split (other, clean) =
    let same : b ≡ x = cc split in (left, rw same refl, cc split, clean)

scan-Ends :
    (chunk rest left : Bytes) (room : ℕ)
    → chunk ++ rest ≡ left ++ 255 ∷ []
    → Plain left
    → Ends chunk rest left room (scan chunk room)
scan-Ends [] rest left room split clean = (
  omega arith,
  λ e. absurd (cc),
  λ e. (left, refl, split, clean),
  λ e h k. absurd (omega (arith, k)),
)
scan-Ends (b ∷ bs) rest left zero split clean = elim (Bool-cases (b == 255)) [
  | inl ends ↦ rw ends (
    omega arith,
    λ e. at_end b (bs ++ rest) left ends split clean,
    λ e. absurd (cc),
    λ e. absurd (cc),
  )
  | inr goes_on ↦ rw goes_on (
    omega arith,
    λ e. absurd (cc),
    λ e. (left, refl, split, clean),
    λ e h. absurd (omega (arith, h)),
  )
]
scan-Ends (b ∷ bs) rest left (suc room) split clean = elim (Bool-cases (b == 255)) [
  | inl ends ↦ rw ends (
    omega arith,
    λ e. at_end b (bs ++ rest) left ends split clean,
    λ e. absurd (cc),
    λ e. absurd (cc),
  )
  | inr goes_on ↦
      let (left', whole, split', clean') = behind_first b (bs ++ rest) left goes_on split clean in
      let s = scan bs room in
      let (fits, over, going, moves) = scan-Ends bs rest left' room split' clean' in
      let at : s.consumed + 1 ≡ suc s.consumed = omega arith in
      rw goes_on (
        omega (arith, fits),
        λ e. ap (λ k. drop k (b ∷ bs) ++ rest) at ∙ over e,
        λ e.
            let (later, parts, input, clean'') = going e in
            (
              later,
              whole ∙ ap (λ x. b ∷ x) parts,
              ap (λ k. drop k (b ∷ bs) ++ rest) at ∙ input,
              clean'',
            ),
        λ e h k. omega arith,
      )
]

append_cancel : (xs ys zs : Bytes) → xs ++ ys ≡ xs ++ zs → ys ≡ zs
append_cancel [] ys zs e = e
append_cancel (x ∷ xs) ys zs e = append_cancel xs ys zs (cc e)

not_end : (e : Bool) → is_end (status_of e) ≡ false → e ≡ false
not_end true h = cc
not_end false h = refl

is_over : (e : Bool) → is_end (status_of e) ≡ true → e ≡ true
is_over true h = refl
is_over false h = cc

some_input :
    (chunk rest left : Bytes)
    → chunk ++ rest ≡ left ++ 255 ∷ []
    → (chunk ≡ [] → rest ≡ [])
    → 0 < length chunk
some_input [] rest [] split all = absurd (cc (sym (all refl) ∙ split))
some_input [] rest (x ∷ left) split all = absurd (cc (sym (all refl) ∙ split))
some_input (c ∷ chunk) rest left split all = omega arith

pub stored-Works : Works stored Valid
stored-Works d chunk rest left room finish (running, split, clean) some_room all =
    let s = scan chunk room in
    let (fits, over, going, moves) = scan-Ends chunk rest left room split clean in
    let next : Stored = record {
      total_in = d.total_in + s.consumed;
      total_out = d.total_out + length s.written;
      over = s.ended;
    } in
    let used : d.total_in + s.consumed - d.total_in ≡ s.consumed = omega arith in
    (
      (status_of s.ended, s.written, next),
      rw running refl,
      fits,
      refl,
      λ e.
          let runs = not_end s.ended e in
          let (later, parts, input, clean') = going runs in
          (
            rw used (moves runs some_room (some_input chunk rest left split all)),
            λ later' parts'.
                let same = append_cancel s.written later later' (sym parts ∙ parts') in
                (runs, rw (used, sym same) input, rw (sym same) clean'),
          ),
      λ e. rw used (over (is_over s.ended e)),
    )
