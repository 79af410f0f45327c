-- ===== src/Blob/Decode/Sources.antt =====
-- What an object of the repository is, through its chain of deltas, and what `run_source` makes of
-- a range of it.
use fornacast.Prelude.{
  ℕ, ◌<◌, ◌≤◌, min, length, arith, ◌≡◌, refl, false, none, some, subst, [], ok, err,
}
use fornacast.Prelude.Bytes.{Bytes}
use fornacast.Blob.Failure.{DecodeResult}
use fornacast.Blob.Budget.{stream_buffer_target}
use fornacast.Blob.Run.{Succeeds}
use fornacast.Prelude.Word.{u64_mod}
use fornacast.Blob.Zlib.{slice, file}
use fornacast.Blob.Stream.{InflatedStream}
use fornacast.Blob.Stream.Inflating.{Inflation, Reads}
use fornacast.Blob.Stream.Refills.{Pending}
use fornacast.Blob.Objects.{
  OpenedPack, compressed, AllocationTracker, BufferRole, metadata_role, metadata_buffer_limit,
  work_role, allocate, stream_buffer,
}
use fornacast.Blob.Frames.{slice_stream, file_stream, from_pack, from_file}

-- An allocator that returns what it is asked for, and a limit that allows for something.
abbrev pub Generous : AllocationTracker → Type 0
Generous tracker =
    (0 < tracker.caller_limit) × ((capacity : ℕ) → tracker.allocator capacity ≡ capacity)

pub stream_buffer-Succeeds :
    (tracker : AllocationTracker) (role : BufferRole)
    → Generous tracker
    → Succeeds (stream_buffer tracker role)
unfolding stream_buffer allocate
stream_buffer-Succeeds tracker metadata_role (some_room, exact) =
    let same = exact (metadata_buffer_limit) in ground arith
stream_buffer-Succeeds tracker _ (some_room, exact) =
    let same = exact (min tracker.caller_limit stream_buffer_target) in ground arith

pub stream_buffer-size :
    (tracker : AllocationTracker) (role : BufferRole) (n : ℕ)
    → stream_buffer tracker role ≡ ok n
    → (0 < n) × (n ≤ stream_buffer_target)
unfolding stream_buffer allocate
stream_buffer-size tracker metadata_role n e = ground arith
stream_buffer-size tracker _ n e = ground arith

module _ {D : Type 0} (z : Inflation D) where
  -- The bytes are one compressed stream.
  abbrev pub Whole : Bytes → Type 0
  Whole bytes = (length bytes < u64_mod) × z.Valid z.inflater.fresh bytes (z.plain bytes)

  module _ (G : Type 0) where
    -- The stream of an entry of a pack at its start.
    pub from_pack-Pending :
        (opened : OpenedPack) (tracker : AllocationTracker) (role : BufferRole) (bytes : Bytes)
        (s : InflatedStream D)
        → compressed opened ≡ ok bytes
        → (G → Whole bytes × (opened.entry.decompressed_size ≡ length (z.plain bytes)))
        → from_pack z.inflater z.read opened tracker role ≡ ok s
        → Pending z G (length (z.plain bytes)) s (z.plain bytes)
    unfolding from_pack
    from_pack-Pending opened tracker role bytes s e sound =
        go (compressed opened) (stream_buffer tracker role) e (stream_buffer-size tracker role)
      where
        go :
            (r : DecodeResult Bytes) (q : DecodeResult ℕ)
            → r ≡ ok bytes
            → ((n : ℕ) → q ≡ ok n → (0 < n) × (n ≤ stream_buffer_target))
            → slice_stream z.inflater z.read (some opened.entry.decompressed_size) r q ≡ ok s
            → Pending z G (length (z.plain bytes)) s (z.plain bytes)
        go (err e) q h sizes k = cc
        go (ok found) (err e) h sizes k = cc
        go (ok found) (ok size) h sizes k =
            let same_bytes : found ≡ bytes = cc in
            let fresh : InflatedStream D = record {
              source = slice bytes 0;
              inflate = z.inflater.fresh;
              size = size;
              output = [];
              output_position = 0;
              declared_size = some opened.entry.decompressed_size;
              ended = false;
            } in
            let same : fresh ≡ s = cc k in
            subst (λ t. Pending z G (length (z.plain bytes)) t (z.plain bytes)) same
              (
                z.plain bytes,
                refl,
                λ e. absurd (cc e),
                z.starts bytes,
                λ g.
                    let ((small, valid), declared) = sound g in
                    let (some_size, few) = sizes size refl in
                    let none_out = z.fresh_out in
                    (
                      (
                        (omega (arith, none_out), declared, some_size, few),
                        λ running. (valid, (omega arith, small)),
                      ),
                      omega arith,
                    ),
              )

    -- The stream of a loose object at its start.
    pub from_file-Pending :
        (bytes : Bytes) (tracker : AllocationTracker) (role : BufferRole) (s : InflatedStream D)
        → (G → Whole bytes × Reads z.read)
        → from_file z.inflater z.read bytes tracker role ≡ ok s
        → Pending z G (length (z.plain bytes)) s (z.plain bytes)
    unfolding from_file
    from_file-Pending bytes tracker role s sound =
        go (stream_buffer tracker work_role) (stream_buffer tracker role)
          (stream_buffer-size tracker work_role) (stream_buffer-size tracker role)
      where
        go :
            (r q : DecodeResult ℕ)
            → ((n : ℕ) → r ≡ ok n → (0 < n) × (n ≤ stream_buffer_target))
            → ((n : ℕ) → q ≡ ok n → (0 < n) × (n ≤ stream_buffer_target))
            → file_stream z.inflater z.read bytes r q ≡ ok s
            → Pending z G (length (z.plain bytes)) s (z.plain bytes)
        go (err e) q inputs sizes k = cc
        go (ok input) (err e) inputs sizes k = cc
        go (ok input) (ok size) inputs sizes k =
            let fresh : InflatedStream D = record {
              source = file bytes [] 0 input false;
              inflate = z.inflater.fresh;
              size = size;
              output = [];
              output_position = 0;
              declared_size = none;
              ended = false;
            } in
            let same : fresh ≡ s = cc k in
            subst (λ t. Pending z G (length (z.plain bytes)) t (z.plain bytes)) same
              (
                z.plain bytes,
                refl,
                λ e. absurd (cc e),
                z.starts bytes,
                λ g.
                    let ((small, valid), reads) = sound g in
                    let (some_input, _) = inputs input refl in
                    let (some_size, few) = sizes size refl in
                    let none_out = z.fresh_out in
                    (
                      (
                        (omega (arith, none_out), tt, some_size, few),
                        λ running. (
                          valid,
                          (
                            omega arith,
                            omega (arith, small),
                            some_input,
                            λ e. absurd (cc e),
                            reads,
                          ),
                        ),
                      ),
                      omega arith,
                    ),
              )

pub from_pack-Succeeds :
    {D : Type 0} (z : Inflation D) (opened : OpenedPack) (tracker : AllocationTracker)
    (role : BufferRole) (bytes : Bytes)
    → compressed opened ≡ ok bytes
    → Generous tracker
    → Succeeds (from_pack z.inflater z.read opened tracker role)
unfolding from_pack
from_pack-Succeeds z opened tracker role bytes e generous =
    go (compressed opened) (stream_buffer tracker role) e
      (stream_buffer-Succeeds tracker role generous)
  where
    go :
        (r : DecodeResult Bytes) (q : DecodeResult ℕ)
        → r ≡ ok bytes
        → Succeeds q
        → Succeeds (slice_stream z.inflater z.read (some opened.entry.decompressed_size) r q)
    go (err e) q h fine = absurd (cc h)
    go (ok found) (err e) h fine = fine
    go (ok found) (ok size) h fine = tt

pub from_file-Succeeds :
    {D : Type 0} (z : Inflation D) (bytes : Bytes) (tracker : AllocationTracker) (role : BufferRole)
    → Generous tracker
    → Succeeds (from_file z.inflater z.read bytes tracker role)
unfolding from_file
from_file-Succeeds z bytes tracker role generous =
    go (stream_buffer tracker work_role) (stream_buffer tracker role)
      (stream_buffer-Succeeds tracker work_role generous)
      (stream_buffer-Succeeds tracker role generous)
  where
    go :
        (r q : DecodeResult ℕ)
        → Succeeds r
        → Succeeds q
        → Succeeds (file_stream z.inflater z.read bytes r q)
    go (err e) q fine fine' = fine
    go (ok input) (err e) fine fine' = fine'
    go (ok input) (ok size) fine fine' = tt
