-- ===== src/Blob/Delta.antt =====
-- The delta format: `decode_delta_varint`, `decode_delta_instruction` and `overlapping_base_range`
-- of bounded_blob.rs. The closure that reads a byte is a parameter over the state it reads from.
pub mod Varint
pub mod Overlap
use Prim.Native.Nat.{bit_and, bit_or}
use fornacast.Prelude.{
  ℕ, zero, suc, ◌+◌, ◌-◌, ◌*◌, ◌/◌, ◌%◌, ◌^◌, min, max, Bool, true, false, Option, none, some,
  Result, ok, err, ◌>>=◌, ltb, leb, ◌==◌, if◌then◌else◌, not, String, List, [], ◌∷◌,
}
use fornacast.Prelude.Bytes.{Bytes}
use fornacast.Prelude.Word.{u64_mod, u64_max, checked_add}
use fornacast.Blob.Failure.{Error, DecodeResult, corrupt, ok_or}

pub data DeltaInstruction : Type 0 where
  insert : ℕ → DeltaInstruction
  copy : ℕ → ℕ → DeltaInstruction

-- What reads a byte from a state, with its errors. The errors of the decoders come by
-- `From<String>`.
abbrev pub Reader : Type 0 → Type 0 → Type 0
Reader E S = S → Result E (ℕ × S)

-- The reader of bytes that are at hand.
unfoldable pub read_list : Reader Error Bytes
read_list [] = err (corrupt "zlib stream ended before requested data")
read_list (b ∷ bs) = ok (b, bs)

-- `for index in 0..10`, with the rounds that are left.
unfoldable pub varint_rounds : {E S : Type 0} → (String → E) → Reader E S → ℕ → ℕ → ℕ → Reader E S
varint_rounds from read zero index value s = err (from "delta varint exceeds 64 bits")
varint_rounds from read (suc rounds) index value s = do
  (byte, s') ← read s
  let shift = index * 7
  let component = bit_and byte 0x7f
  let value' = bit_or value ((component * 2 ^ shift) % u64_mod)
  let more = varint_rounds from read rounds (index + 1) value' s'
  if ltb (u64_max / 2 ^ shift) component
      then err (from "delta varint overflow")
      else if bit_and byte 0x80 == 0
      then ok (value', s')
      else more

unfoldable pub decode_delta_varint : {E S : Type 0} → (String → E) → Reader E S → Reader E S
decode_delta_varint from read = varint_rounds from read 10 0 0

-- One field of a copy instruction: a byte is read for each flag that is set.
unfoldable pub copy_field : {E S : Type 0} → Reader E S → ℕ → List (ℕ × ℕ) → ℕ → Reader E S
copy_field read opcode [] value s = ok (value, s)
copy_field read opcode ((flag, shift) ∷ fields) value s =
    if bit_and opcode flag == 0 then copy_field read opcode fields value s else do
      (byte, s') ← read s
      copy_field read opcode fields (bit_or value ((byte * 2 ^ shift) % u64_mod)) s'

abbrev pub offset_fields : List (ℕ × ℕ)
offset_fields = (0x01, 0) ∷ (0x02, 8) ∷ (0x04, 16) ∷ (0x08, 24) ∷ []

abbrev pub size_fields : List (ℕ × ℕ)
size_fields = (0x10, 0) ∷ (0x20, 8) ∷ (0x40, 16) ∷ []

unfoldable pub decode_delta_instruction :
    {E S : Type 0} → (String → E) → ℕ → Reader E S → S → Result E (DeltaInstruction × S)
unfolding copy_field
decode_delta_instruction from opcode read s =
    if opcode == 0
    then err (from "delta opcode zero is reserved")
    else if bit_and opcode 0x80 == 0
    then ok (insert opcode, s)
    else do
      (offset, s') ← copy_field read opcode offset_fields 0 s
      (size, s'') ← copy_field read opcode size_fields 0 s'
      ok (copy offset (if size == 0 then 0x1_0000 else size), s'')

pub record Range : Type 0 where
  pub start : ℕ
  pub end : ℕ

unfoldable pub overlapping_base_range : DeltaInstruction → ℕ → Range → DecodeResult (Option Range)
overlapping_base_range instruction output_start requested =
    if ltb requested.end requested.start
    then err (corrupt "requested delta range is reversed")
    else elim instruction [
      | insert size ↦ ok none
      | copy offset size ↦ do
        output_end ← ok_or (checked_add output_start size) (corrupt "delta output range overflow")
        let overlap_start = max output_start requested.start
        let overlap_end = min output_end requested.end
        if leb overlap_end overlap_start then ok none else do
          source_start ←
              ok_or (checked_add offset (overlap_start - output_start))
                (corrupt "delta base range overflow")
          source_end ←
              ok_or (checked_add source_start (overlap_end - overlap_start))
                (corrupt "delta base range overflow")
          ok (some (record { start = source_start; end = source_end }))
    ]
