-- ===== src/Blob/Loose.antt =====
-- The header of a loose object: `read_loose_header` of bounded_blob.rs.
pub mod Format
pub mod Reading
pub mod Number
pub mod Whole
mod Tests
use fornacast.Prelude.{
  ℕ, zero, suc, ◌+◌, ◌-◌, ◌*◌, ◌%◌, Bool, true, false, not, ◌&&◌, ◌||◌, Option, none, some, Result,
  ok, err, ltb, leb, ◌==◌, if◌then◌else◌,
}
use fornacast.Prelude.Word.{u64_mod, checked_add, checked_mul}
use fornacast.Receive.PackHeader.{Kind}
use fornacast.Blob.Failure.{DecodeResult, corrupt, ok_or}
use fornacast.Blob.Run.{Decode, pure, fail, cut_off, lift, work, ◌>>=◌, ◌>>◌}
use fornacast.Blob.Zlib.{Inflater, FileRead}
use fornacast.Blob.Stream.{InflatedStream, read_required_byte, set_declared_size, ensure}
use fornacast.Blob.Objects.{ObjectMetadata}
use fornacast.Blob.Header.{Digits, is_ascii_lowercase, kind_of, add_digit, is_canonical, total_size}

module _ {D : Type 0} (z : Inflater D) (read : FileRead) where
  -- The first `loop`: at most six letters and the space.
  unfoldable pub kind_rounds : ℕ → ℕ → ℕ → InflatedStream D → Decode ((ℕ × ℕ) × InflatedStream D)
  kind_rounds zero kind_code kind_length s = cut_off
  kind_rounds (suc rounds) kind_code kind_length s = do
    (byte, s') ← read_required_byte z read s
    let more = kind_rounds rounds ((kind_code * 256) % u64_mod + byte) (kind_length + 1) s'
    if byte == 32
        then pure ((kind_code, kind_length), s')
        else if kind_length == 6 || not (is_ascii_lowercase byte)
        then fail (corrupt "invalid loose object kind")
        else more

  -- The second `loop`: at most twenty digits and the zero byte.
  unfoldable pub digit_rounds : ℕ → Digits → InflatedStream D → Decode (Digits × InflatedStream D)
  digit_rounds zero d s = cut_off
  digit_rounds (suc rounds) d s = do
    (byte, s') ← read_required_byte z read s
    if byte == 0 then pure (d, s') else do d' ← lift (add_digit byte d); digit_rounds rounds d' s'

  unfoldable pub read_loose_header : InflatedStream D → Decode (ObjectMetadata × InflatedStream D)
  read_loose_header s = do
    ((kind_code, kind_length), s1) ← kind_rounds 7 0 0 s
    kind ← lift (kind_of kind_length kind_code)
    (d, s2) ← digit_rounds 21 (record { size = 0; digit_count = 0; first_digit = 0 }) s1
    lift (ensure (is_canonical d) "loose object size is not canonical")
    total ← lift (total_size kind_length d)
    s3 ← lift (set_declared_size z total s2)
    pure (record { kind = kind; size = d.size }, s3)
