-- ===== src/Blob/Zlib.antt =====
-- Compressed input and its inflater: `CompressedSource` of bounded_blob.rs. The inflater of zlib and
-- the reads of a file are parameters. A slice that starts past the end of its bytes is empty here;
-- the code would panic, but a position only passes what the inflater has read.
use fornacast.Prelude.{
  ℕ, ◌-◌, Bool, true, false, not, ◌&&◌, Option, String, [], ◌∷◌, length, take, drop, ◌==◌,
  if◌then◌else◌,
}
use fornacast.Prelude.Bytes.{Bytes}
use fornacast.Prelude.Word.{checked_add}
use fornacast.Blob.Failure.{corrupt, storage, ok_or}
use fornacast.Blob.Budget.{compressed_chunk, charge_compressed_input, charge_inflated_output}
use fornacast.Blob.Run.{Decode, pure, lift, work, work_chunk, ◌>>=◌, ◌>>◌}

pub data Status : Type 0 where
  more_to_come stream_end : Status

-- `gix_features::zlib::Decompress`. A call takes input, the room for output and whether the input
-- is over; it answers with the status, the bytes that it wrote and its next state, or it fails.
pub record Inflater (D : Type 0) : Type 0 where
  pub fresh : D
  pub decompress : D → Bytes → ℕ → Bool → Option (Status × Bytes × D)
  pub total_in : D → ℕ
  pub total_out : D → ℕ

-- What `File::read` answers for the rest of a file and a limit: the number of bytes read.
abbrev pub FileRead : Type 0
FileRead = Bytes → ℕ → Option ℕ

-- An entry of a pack is a slice. A file has the bytes not read yet, the part of its buffer that is
-- filled, and the size of that buffer.
pub data CompressedSource : Type 0 where
  slice : Bytes → ℕ → CompressedSource
  file : Bytes → Bytes → ℕ → ℕ → Bool → CompressedSource

pub record Inflated (D : Type 0) : Type 0 where
  pub status : Status
  pub consumed : ℕ
  pub written : Bytes
  pub input_was_eof : Bool
  pub source : CompressedSource
  pub inflate : D

abbrev pub is_empty : Bytes → Bool
is_empty [] = true
is_empty (b ∷ bs) = false

module _ (read : FileRead) where
  -- The read that is due when the buffer is used up: what remains, the buffer, the position and
  -- whether the file is over.
  unfoldable pub fill_buffer :
      Bytes → Bytes → ℕ → ℕ → Bool → String → ℕ → Decode (Bytes × Bytes × ℕ × Bool)
  fill_buffer rest buffer position size eof detail wanted =
      if position == length buffer && not eof
      then (do
        read_limit ← work_chunk (compressed_chunk wanted)
        n ← lift (ok_or (read rest read_limit) (storage detail))
        pure (drop n rest, take n rest, 0, n == 0))
      else pure (rest, buffer, position, eof)

  unfoldable pub is_exactly_exhausted : CompressedSource → Decode (Bool × CompressedSource)
  is_exactly_exhausted (slice bytes position) =
      pure (position == length bytes, slice bytes position)
  is_exactly_exhausted (file rest buffer position size eof) =
      if not (position == length buffer)
      then pure (false, file rest buffer position size eof)
      else if eof
      then pure (true, file rest buffer position size eof)
      else (do
        read_limit ← work_chunk (compressed_chunk 1)
        n ← lift (ok_or (read rest read_limit) (storage "read loose object trailer"))
        work (charge_compressed_input n)
        pure (n == 0, file (drop n rest) (take n rest) 0 size (n == 0)))

module _ {D : Type 0} (z : Inflater D) where
  -- What both kinds of sources do with their input, its position and the source behind it.
  unfoldable pub inflate_input :
      D → Bytes → Bool → ℕ → ℕ → (ℕ → CompressedSource) → String → Decode (Inflated D)
  inflate_input d input eof out_len position at_position detail = do
    (status, written, d') ← lift (ok_or (z.decompress d input out_len eof) (corrupt detail))
    let consumed = z.total_in d' - z.total_in d
    work (charge_compressed_input consumed)
    work (charge_inflated_output (z.total_out d' - z.total_out d))
    position' ←
        lift (ok_or (checked_add position consumed) (corrupt "compressed input position overflow"))
    pure (record {
      status = status;
      consumed = consumed;
      written = written;
      input_was_eof = eof;
      source = at_position position';
      inflate = d';
    })

  unfoldable pub decompress_slice : Bytes → ℕ → D → ℕ → Decode (Inflated D)
  decompress_slice bytes position d out_len = do
    input_len ← work_chunk (compressed_chunk (length (drop position bytes)))
    inflate_input d (take input_len (drop position bytes)) (is_empty (drop position bytes)) out_len
        position (slice bytes) "inflate pack entry"

  unfoldable pub decompress_once : FileRead → CompressedSource → D → ℕ → Decode (Inflated D)
  decompress_once read (slice bytes position) d out_len = decompress_slice bytes position d out_len
  decompress_once read (file rest buffer position size eof) d out_len = do
    filled ← fill_buffer read rest buffer position size eof "read loose object" size
    let input = drop filled.2 filled.1
    inflate_input d input (is_empty input && filled.3) out_len filled.2
        (λ (position' : ℕ). file filled.0 filled.1 position' size filled.3) "inflate loose object"
