-- ===== src/Receive/PackHeader.antt =====
-- The header of an object in a pack: `write_pack_object_header` and `object_type_id`.
pub mod RoundTrip
use fornacast.Prelude.{
  ℕ, zero, suc, ◌+◌, ◌-◌, ◌*◌, ◌/◌, ◌%◌, ◌^◌, ◌≤◌, ◌<◌, ◌≡◌, refl, List, [], ◌∷◌, ◌++◌, Option,
  none, some, ◌==◌, if◌then◌else◌, arith, leb, ltb,
}
use Prim.Native.Nat.{bit_and, bit_or}
use fornacast.Prelude.Bytes.{Bytes}

pub data Kind : Type 0 where
  commit tree blob tag : Kind

unfoldable pub object_type_id : Kind → ℕ
object_type_id commit = 1
object_type_id tree = 2
object_type_id blob = 3
object_type_id tag = 4

-- `while size != 0`: a round takes seven bits off, so ten rounds are enough for 64 bits.
unfoldable pub size_rounds : ℕ → ℕ → Bytes
size_rounds zero size = []
size_rounds (suc rounds) size =
    if size == 0
    then []
    else let byte = bit_and (size % 256) 0b111_1111 in
      let rest = size / 128 in
      (if rest == 0 then byte else bit_or byte 0b1000_0000) ∷ size_rounds rounds rest

unfoldable pub write_pack_object_header : Bytes → ℕ → ℕ → Bytes
write_pack_object_header pack type_id size =
    let first = bit_or (bit_and type_id 0b111 * 16 % 256) (bit_and (size % 256) 0b1111) in
    let rest = size / 16 in
    pack ++ (if rest == 0 then first else bit_or first 0b1000_0000) ∷ size_rounds 10 rest
