-- ===== src/Blob/Loose/Tests.antt =====
-- The header of a loose blob of two bytes.
use fornacast.Prelude.{◌≡◌, refl, none, [], ◌∷◌, ◌++◌, false, arith}
use fornacast.Prelude.Bytes.{Bytes}
use fornacast.Receive.PackHeader.{Kind}
use fornacast.Blob.Objects.{stream_buffer, allocate}
use fornacast.Blob.Decode.Stored.{Stored, stored}
use fornacast.Blob.Run.Keeps.{Keeps}
use fornacast.Blob.Zlib.{file}
use fornacast.Blob.Stream.{InflatedStream}
use fornacast.Blob.Stream.Refills.{Pending}
use fornacast.Blob.Objects.{decoded_object}
use fornacast.Blob.Frames.{from_file}
use fornacast.Blob.Loose.{read_loose_header}
use fornacast.Blob.Loose.Format.{Header}
use fornacast.Blob.Loose.Whole.{Described, read_loose_header-Header}
use fornacast.Blob.Decode.Sources.{from_file-Pending}
use fornacast.Blob.Decode.Examples.{read_all-Reads, read_all, tracker, budget, inflation}

abbrev loose_bytes : Bytes
loose_bytes = 98 ∷ 108 ∷ 111 ∷ 98 ∷ 32 ∷ 50 ∷ 0 ∷ 7 ∷ 8 ∷ 255 ∷ []

abbrev loose_plain : Bytes
loose_plain = 98 ∷ 108 ∷ 111 ∷ 98 ∷ 32 ∷ 50 ∷ 0 ∷ 7 ∷ 8 ∷ []

abbrev loose_stream : InflatedStream Stored
loose_stream = record {
  source = file loose_bytes [] 0 3 false;
  inflate = stored.fresh;
  size = 3;
  output = [];
  output_position = 0;
  declared_size = none;
  ended = false;
}

loose_stream-Pending : Pending inflation Unit 9 loose_stream loose_plain
unfolding from_file stream_buffer allocate
loose_stream-Pending =
    from_file-Pending inflation Unit loose_bytes tracker decoded_object loose_stream
      (λ g. ((omega arith, (refl, refl, ground arith)), read_all-Reads)) refl

loose_plain-Described : Described inflation Unit 9 loose_plain
loose_plain-Described = (
  Kind.blob,
  2,
  98 ∷ 108 ∷ 111 ∷ 98 ∷ 32 ∷ 50 ∷ [],
  7 ∷ 8 ∷ [],
  refl,
  (
    50 ∷ [],
    refl,
    (((omega arith, omega arith), tt), refl, omega arith, omega arith, λ h. absurd (omega arith)),
  ),
  refl,
  refl,
  omega arith,
)

read_loose_header-Header_example :
    Keeps Unit budget
      (λ r.
        (front body : Bytes) × (loose_plain ≡ front ++ 0 ∷ body)
        × Header r.0.kind r.0.size front
        × Pending inflation Unit 9 r.1 body)
      (read_loose_header stored read_all loose_stream budget)
read_loose_header-Header_example =
    read_loose_header-Header inflation Unit 9 loose_stream loose_plain budget
      (omega arith, omega arith) loose_stream-Pending λ g. loose_plain-Described
