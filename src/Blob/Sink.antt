-- ===== src/Blob/Sink.antt =====
-- `DecodeSink` of bounded_blob.rs and its two sinks.
use fornacast.Prelude.{ℕ, List, [], ◌∷◌, ◌++◌, length, ok, err, ◌>>=◌, ltb, if◌then◌else◌}
use fornacast.Prelude.Bytes.{Bytes}
use fornacast.Prelude.Word.{checked_add}
use fornacast.Blob.Failure.{DecodeResult, corrupt, ok_or}
use fornacast.Blob.Budget.{stream_buffer_target}

-- `DecodeSink`
pub record Sink (S : Type 0) : Type 0 where
  pub position : S → ℕ
  pub append : Bytes → S → DecodeResult S

-- The output is a vector with a capacity.
pub record Retained : Type 0 where
  pub output : Bytes
  pub capacity : ℕ

unfoldable pub retained_append : Bytes → Retained → DecodeResult Retained
retained_append bytes s = do
  new_length ←
      ok_or (checked_add (length s.output) (length bytes))
        (corrupt "bounded output length overflow")
  if ltb s.capacity new_length
      then err (corrupt "bounded output would grow beyond its allocation")
      else ok (record s { output = s.output ++ bytes })

abbrev pub retained_sink : Sink Retained
retained_sink = record { position = λ s. length s.output; append = retained_append }

-- The hasher is a state with an update; the visitor's calls are recorded.
pub record Visited (H : Type 0) : Type 0 where
  pub hasher : H
  pub visits : List Bytes
  pub bytes : ℕ

module _ {H : Type 0} (update : H → Bytes → H) where
  unfoldable pub visitor_append : Bytes → Visited H → DecodeResult (Visited H)
  visitor_append bytes s =
      if ltb stream_buffer_target (length bytes)
      then err (corrupt "streaming blob visitor received a chunk")
      else (do
        count ←
            ok_or (checked_add s.bytes (length bytes))
              (corrupt "streaming blob byte count overflow")
        ok (record {
          hasher = update s.hasher bytes;
          visits = s.visits ++ (bytes ∷ []);
          bytes = count;
        }))

  abbrev pub visitor_sink : Sink (Visited H)
  visitor_sink = record { position = λ s. s.bytes; append = visitor_append }
