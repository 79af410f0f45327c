-- ===== src/Blob/Header.antt =====
-- The parts of the header of a loose object: the kind, the digits of the size and what they declare,
-- in `read_loose_header` of bounded_blob.rs.
use fornacast.Prelude.{
  ℕ, ◌+◌, ◌-◌, Bool, not, ◌&&◌, ◌||◌, ok, err, ◌>>=◌, ◌>>◌, ltb, leb, ◌==◌, if◌then◌else◌,
}
use fornacast.Prelude.Word.{checked_add, checked_mul}
use fornacast.Receive.PackHeader.{Kind}
use fornacast.Blob.Failure.{DecodeResult, corrupt, ok_or}
use fornacast.Blob.Stream.{ensure}

-- `u8::is_ascii_lowercase` and `u8::is_ascii_digit`
abbrev pub is_ascii_lowercase : ℕ → Bool
is_ascii_lowercase b = leb 97 b && leb b 122

abbrev pub is_ascii_digit : ℕ → Bool
is_ascii_digit b = leb 48 b && leb b 57

-- The digits read: their value, their number and the first one.
pub record Digits : Type 0 where
  pub size : ℕ
  pub digit_count : ℕ
  pub first_digit : ℕ

unfoldable pub kind_of : ℕ → ℕ → DecodeResult Kind
kind_of kind_length kind_code =
    if kind_length == 4 && kind_code == 0x626c6f62
    then ok Kind.blob
    else if kind_length == 4 && kind_code == 0x74726565
    then ok Kind.tree
    else if kind_length == 6 && kind_code == 0x636f6d6d6974
    then ok Kind.commit
    else if kind_length == 3 && kind_code == 0x00746167
    then ok Kind.tag
    else err (corrupt "unsupported loose object kind")

unfoldable pub add_digit : ℕ → Digits → DecodeResult Digits
add_digit byte d = do
  ensure (not (not (is_ascii_digit byte) || d.digit_count == 20)) "invalid loose object size"
  tens ← ok_or (checked_mul d.size 10) (corrupt "loose object size overflow")
  size ← ok_or (checked_add tens (byte - 48)) (corrupt "loose object size overflow")
  ok (record {
    size = size;
    digit_count = d.digit_count + 1;
    first_digit = if d.digit_count == 0 then byte else d.first_digit;
  })

abbrev pub is_canonical : Digits → Bool
is_canonical d = not (d.digit_count == 0 || ltb 1 d.digit_count && d.first_digit == 48)

-- What is declared: the header with its two separators, and the body.
unfoldable pub total_size : ℕ → Digits → DecodeResult ℕ
total_size kind_length d = do
  separated ←
      ok_or (checked_add (kind_length + d.digit_count) 2)
        (corrupt "loose object header size overflow")
  ok_or (checked_add separated d.size) (corrupt "loose object total size overflow")
