-- ===== src/Blob/Stream.antt =====
-- `InflatedStream` of bounded_blob.rs: decoded bytes, read one at a time, skipped, or appended to a
-- sink, with refills of the buffer behind them.
pub mod Inflating
pub mod Sources
pub mod Refills
pub mod Required
pub mod Appends
pub mod Reads
pub mod Outputs
use fornacast.Prelude.{
  ℕ, zero, suc, ◌+◌, ◌-◌, min, Bool, true, false, not, ◌&&◌, ◌||◌, Option, none, some, String, List,
  [], ◌∷◌, ◌++◌, length, take, drop, Result, ok, err, ltb, ◌==◌, if◌then◌else◌,
}
use fornacast.Prelude.Bytes.{Bytes}
use fornacast.Prelude.Word.{checked_add}
use fornacast.Blob.Failure.{DecodeResult, corrupt, ok_or}
use fornacast.Blob.Budget.{stream_buffer_target, inflated_chunk, check_stop, charge_skipped_output}
use fornacast.Blob.Run.{Decode, pure, fail, cut_off, lift, work, work_chunk, ◌>>=◌, ◌>>◌}
use fornacast.Blob.Sink.{Sink}
use fornacast.Blob.Zlib.{
  Status, stream_end, more_to_come, Inflater, FileRead, CompressedSource, slice, file, Inflated,
  is_empty, decompress_once, is_exactly_exhausted,
}

-- The buffer has `size` bytes, of which `output` is filled.
pub record InflatedStream (D : Type 0) : Type 0 where
  pub source : CompressedSource
  pub inflate : D
  pub size : ℕ
  pub output : Bytes
  pub output_position : ℕ
  pub declared_size : Option ℕ
  pub ended : Bool

abbrev pub available : {D : Type 0} → InflatedStream D → ℕ
available s = length s.output - s.output_position

-- The bytes that are decoded and not yet consumed.
abbrev pub buffered : {D : Type 0} → InflatedStream D → Bytes
buffered s = drop s.output_position s.output

-- What is left of compressed input.
abbrev pub compressed_left : CompressedSource → Bytes
compressed_left (slice bytes position) = drop position bytes
compressed_left (file rest buffer position size eof) = drop position buffer ++ rest

abbrev pub is_end : Status → Bool
is_end stream_end = true
is_end more_to_come = false

abbrev pub beyond : Option ℕ → ℕ → Bool
beyond none produced = false
beyond (some declared_size) produced = ltb declared_size produced

abbrev pub differs : Option ℕ → ℕ → Bool
differs none produced = false
differs (some declared_size) produced = not (produced == declared_size)

abbrev pub ensure : Bool → String → DecodeResult (Unit {0})
ensure true detail = ok tt
ensure false detail = err (corrupt detail)

module _ {D : Type 0} (z : Inflater D) where
  unfoldable pub set_declared_size : ℕ → InflatedStream D → DecodeResult (InflatedStream D)
  set_declared_size declared_size s =
      if ltb declared_size (z.total_out s.inflate)
        || s.ended && not (z.total_out s.inflate == declared_size)
      then err (corrupt "zlib stream produced bytes for declared size")
      else ok (record s { declared_size = some declared_size })

  module _ (read : FileRead) where
    -- The end of the stream as the inflater reports it.
    unfoldable pub end_stream : Status → InflatedStream D → Decode (InflatedStream D)
    end_stream more_to_come s = pure s
    end_stream stream_end s = do
      lift
          (ensure (not (differs s.declared_size (z.total_out s.inflate))) "zlib StreamEnd at bytes")
      exhausted ← is_exactly_exhausted read s.source
      lift (ensure exhausted.0 "zlib stream ended before the compressed entry boundary")
      pure (record s { source = exhausted.1; ended = true })

    -- `loop`, with the rounds that are left.
    unfoldable pub refill_rounds : ℕ → ℕ → InflatedStream D → Decode (InflatedStream D)
    refill_rounds zero output_len s = cut_off
    refill_rounds (suc rounds) output_len s = do
      work check_stop
      step ← decompress_once z read s.source s.inflate output_len
      let s' = record s {
        source = step.source;
        inflate = step.inflate;
        output = step.written;
        output_position = 0;
      }
      lift (
          ensure (not (beyond s.declared_size (z.total_out step.inflate)))
            "zlib stream produced bytes beyond declared size")
      s'' ← end_stream step.status s'
      let more = refill_rounds rounds output_len s''
      if not (is_empty step.written) || s''.ended
          then pure s''
          else if step.consumed == 0
          then fail (
              corrupt (
                if step.input_was_eof
                then "zlib stream ended without StreamEnd"
                else "zlib stream made no progress"))
          else more

    abbrev pub refill_bound : InflatedStream D → ℕ
    refill_bound s = suc (length (compressed_left s.source))

    unfoldable pub refill : ℕ → InflatedStream D → Decode (InflatedStream D)
    refill requested s =
        if requested == 0 || s.ended
        then pure (record s { output = []; output_position = 0 })
        else if not (available s == 0)
        then fail (corrupt "attempted to refill with decoded bytes still buffered")
        else do
          output_len ← work_chunk (inflated_chunk (min requested s.size))
          refill_rounds (refill_bound s) output_len s

    -- `if self.available() == 0 { self.refill(..)? }` and the check behind it.
    unfoldable pub required : ℕ → InflatedStream D → Decode (InflatedStream D)
    required requested s = do
      s' ← if available s == 0 then refill requested s else pure s
      lift (ensure (not (available s' == 0)) "zlib stream ended before requested data")
      pure s'

    unfoldable pub read_required_byte : InflatedStream D → Decode (ℕ × InflatedStream D)
    read_required_byte s = do
      work check_stop
      s' ← required 1 s
      elim (buffered s') [
        | [] ↦ cut_off
        | b ∷ bs ↦ pure (b, record s' { output_position = s'.output_position + 1 })
      ]

    -- `while count != 0`, with the rounds that are left.
    unfoldable pub skip_rounds : ℕ → ℕ → InflatedStream D → Decode (InflatedStream D)
    skip_rounds rounds zero s = pure s
    skip_rounds zero (suc n) s = cut_off
    skip_rounds (suc rounds) (suc n) s = do
      work check_stop
      s' ← required (min (suc n) s.size) s
      let consumed = min (available s') (suc n)
      work (charge_skipped_output consumed)
      skip_rounds rounds (suc n - consumed)
          (record s' { output_position = s'.output_position + consumed })

    unfoldable pub skip_exact : ℕ → InflatedStream D → Decode (InflatedStream D)
    skip_exact count = skip_rounds count count

    module _ {S : Type 0} (sink : Sink S) where
      unfoldable pub append_rounds : ℕ → ℕ → InflatedStream D → S → Decode (InflatedStream D × S)
      append_rounds rounds zero s output = pure (s, output)
      append_rounds zero (suc n) s output = cut_off
      append_rounds (suc rounds) (suc n) s output = do
        work check_stop
        s' ← required (min (suc n) s.size) s
        let consumed = min (available s') (suc n)
        output' ← lift (sink.append (take consumed (buffered s')) output)
        append_rounds rounds (suc n - consumed)
            (record s' { output_position = s'.output_position + consumed }) output'

      unfoldable pub append_exact : ℕ → InflatedStream D → S → Decode (InflatedStream D × S)
      append_exact count = append_rounds count count

    unfoldable pub finish_exact : InflatedStream D → Decode (InflatedStream D)
    finish_exact s = do
      lift (ensure (available s == 0) "zlib stream produced unconsumed decoded bytes")
      s' ← refill 1 s
      lift (ensure (available s' == 0) "zlib stream produced more bytes than declared")
      lift (ensure s'.ended "zlib stream did not reach StreamEnd")
      pure s'
