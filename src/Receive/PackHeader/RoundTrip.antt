-- ===== src/Receive/PackHeader/RoundTrip.antt =====
-- What a reader of the pack format gets back from the header of an object.
use fornacast.Prelude.{
  ℕ, zero, suc, ◌+◌, ◌-◌, ◌*◌, ◌/◌, ◌%◌, ◌^◌, ◌<◌, ◌≡◌, refl, [], ◌∷◌, ◌++◌, Option, none, some,
  dec_lt, ◌==◌, if◌then◌else◌, arith, ltb, false,
}
use Prim.Native.Nat.{bit_and, bit_or}
use native.Mathlib.Nat.{pow-suc}
use fornacast.Prelude.Bytes.{Bytes}
use fornacast.Prelude.Bits.{
  bit_and_low, bit_and_nibble, bit_and_three, bit_or_nibbles, bit_or_disjoint,
}
use fornacast.Prelude.Word.{IsU64}
use fornacast.Receive.PackHeader.{size_rounds, write_pack_object_header}

-- The rest of a size: seven bits a byte, the lowest first, and another byte behind one with the
-- top bit.
unfoldable pub read_size : Bytes → Option (ℕ × Bytes)
read_size [] = none
read_size (b ∷ bs) =
    if ltb b 128
    then some (b, bs)
    else elim (read_size bs) [ none ↦ none | some (size, rest) ↦ some (b - 128 + 128 * size, rest) ]

-- The header of an object in Git's pack format: three bits of type and four of size in the first
-- byte.
unfoldable pub read_header : Bytes → Option (ℕ × ℕ × Bytes)
unfolding read_size
read_header [] = none
read_header (b ∷ bs) = if ltb b 128 then some (b / 16, b % 16, bs) else elim (read_size bs) [
  | none ↦ none
  | some (size, rest) ↦ some ((b - 128) / 16, b % 16 + 16 * size, rest)
]

top_bit : (b : ℕ) → b < 128 → bit_or b 0b1000_0000 ≡ b + 128
top_bit b h = bit_or_disjoint 7 b 1 h

low_bits : (size : ℕ) → bit_and (size % 256) 0b111_1111 ≡ size % 128
low_bits size = omega (arith, bit_and_low (size % 256) (omega arith))

size_rounds_step :
    (rounds size : ℕ)
    → 0 < size
    → size_rounds (suc rounds) size
      ≡ (if size / 128 == 0 then size % 128 else size % 128 + 128) ∷ size_rounds rounds (size / 128)
unfolding size_rounds
size_rounds_step rounds size h = ground (arith, low_bits size, top_bit (size % 128) (omega arith))

size_rounds_zero : (rounds : ℕ) → size_rounds rounds 0 ≡ []
unfolding size_rounds
size_rounds_zero zero = refl
size_rounds_zero (suc rounds) = refl

read_more :
    (b size : ℕ) (bs tail : Bytes)
    → b < 128
    → read_size bs ≡ some (size, tail)
    → read_size ((b + 128) ∷ bs) ≡ some (b + 128 * size, tail)
unfolding read_size
read_more b size bs tail h e = ground (arith, e)

read_size-size_rounds :
    (rounds size : ℕ) (tail : Bytes)
    → 0 < size
    → size < 128 ^ rounds
    → read_size (size_rounds rounds size ++ tail) ≡ some (size, tail)
read_size-size_rounds zero size tail h k = absurd (omega arith)
read_size-size_rounds (suc rounds) size tail h k =
    rw (size_rounds_step rounds size h) (elim (dec_lt size 128) [
      | yes short ↦
          let last : size / 128 ≡ 0 = omega arith in
          let whole : size % 128 ≡ size = omega arith in
          rw (last, size_rounds_zero rounds, whole) (unfold read_size in ground arith)
      | no long ↦
          let more : (size / 128 == 0) ≡ false = ground arith in
          let fits : size / 128 < 128 ^ rounds = omega (arith, pow-suc 128 rounds) in
          let sum : size % 128 + 128 * (size / 128) ≡ size = omega arith in
          let rest = read_size-size_rounds rounds (size / 128) tail (omega arith) fits in
          rw more (
            rw sum at (
              read_more (size % 128) (size / 128) (size_rounds rounds (size / 128) ++ tail) tail
                (omega arith) rest))
    ])

abbrev first_byte : ℕ → ℕ → ℕ
first_byte type_id size = type_id * 16 + size % 16

first_byte_exact :
    (type_id size : ℕ)
    → type_id < 8
    → bit_or (bit_and type_id 0b111 * 16 % 256) (bit_and (size % 256) 0b1111)
      ≡ first_byte type_id size
first_byte_exact type_id size h =
    let b = first_byte type_id size in
    let t : type_id ≡ b / 16 = omega arith in
    let high : bit_and type_id 0b111 * 16 % 256 ≡ b / 16 * 16 =
      omega (arith, bit_and_three type_id (omega arith)) in
    let low : bit_and (size % 256) 0b1111 ≡ b % 16 =
      omega (arith, bit_and_nibble (size % 256) (omega arith)) in
    rw (high, low) (bit_or_nibbles b (omega arith))

header_more :
    (type_id size : ℕ) (bs tail : Bytes)
    → type_id < 8
    → read_size bs ≡ some (size / 16, tail)
    → read_header ((first_byte type_id size + 128) ∷ bs) ≡ some (type_id, size, tail)
unfolding read_header
header_more type_id size bs tail h e = ground (arith, e)

-- The header is added behind the pack, and a reader of the format gets back the type, the size of a
-- 64-bit object and all that follows.
pub read_header-write_pack_object_header :
    (pack : Bytes) (type_id size : ℕ) (tail : Bytes)
    → type_id < 8
    → IsU64 size
    → (header : Bytes) × (write_pack_object_header pack type_id size ≡ pack ++ header)
      × (read_header (header ++ tail) ≡ some (type_id, size, tail))
unfolding write_pack_object_header
read_header-write_pack_object_header pack type_id size tail h k = (
  _,
  refl,
  rw (first_byte_exact type_id size h) (elim (dec_lt size 16) [
    | yes short ↦
        let last : size / 16 ≡ 0 = omega arith in
        rw (last, size_rounds_zero 10) (unfold read_header in ground arith)
    | no long ↦
        let more : (size / 16 == 0) ≡ false = ground arith in
        let rest = read_size-size_rounds 10 (size / 16) tail (omega arith) (omega arith) in
        rw (more, top_bit (first_byte type_id size) (omega arith))
          (header_more type_id size (size_rounds 10 (size / 16) ++ tail) tail h rest)
  ]),
)
