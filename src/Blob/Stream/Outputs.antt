-- ===== src/Blob/Stream/Outputs.antt =====
-- The two sinks of bounded_blob.rs as outputs of a decoder: the vector with a capacity, and the
-- visitor of chunks.
use fornacast.Prelude.{
  ℕ, zero, suc, ◌≡◌, refl, sym, ap, ◌∙◌, some, [], ◌∷◌, ◌++◌, ◌≤◌, ◌<◌, ◌+◌, ◌-◌, false, ltb,
  length, length-append, append_assoc, joined, joined-snoc, drop, length-drop, ok, arith,
}
use fornacast.Prelude.Bytes.{Bytes}
use fornacast.Prelude.Slices.{drop-append}
use fornacast.Prelude.Word.{u64_mod, checked_add}
use fornacast.Blob.Budget.{stream_buffer_target}
use fornacast.Blob.Sink.{
  Retained, retained_sink, retained_append, Visited, visitor_sink, visitor_append,
}
use fornacast.Blob.Stream.Reads.{Output}

abbrev pub held : Retained → Bytes
held r = r.output

pub appended :
    (bytes : Bytes) (s s' : Retained)
    → retained_append bytes s ≡ ok s'
    → s'.output ≡ s.output ++ bytes
appended bytes s s' e = unfold retained_append in ground arith

abbrev Room : Retained → ℕ → Type 0
Room s n = (length s.output + n ≤ s.capacity) × (s.capacity < u64_mod)

pub retained-takes :
    (bytes : Bytes) (s : Retained) (n : ℕ)
    → Room s (length bytes + n)
    → length bytes ≤ stream_buffer_target
    → (s' : Retained) × (retained_append bytes s ≡ ok s') × Room s' n
unfolding retained_append
retained-takes bytes s n (fits, small) few =
    let inside : ltb s.capacity (length s.output + length bytes) ≡ false = ground arith in
    let sum : checked_add (length s.output) (length bytes) ≡ some (length s.output + length bytes) =
      ground arith in
    (
      record s { output = s.output ++ bytes },
      rw (sum, inside) refl,
      (omega (arith, fits, length-append s.output bytes), small),
    )

abbrev pub retained : Output Retained
retained = record {
  sink = retained_sink;
  content = held;
  position_length = λ s. refl;
  appends = appended;
  Room = Room;
  takes = retained-takes;
}

abbrev zeros : ℕ → Bytes
zeros zero = []
zeros (suc n) = 0 ∷ zeros n

length-zeros : (n : ℕ) → length (zeros n) ≡ n
length-zeros zero = omega arith
length-zeros (suc n) = omega (arith, length-zeros n)

-- As many bytes as were counted: the last ones, with zeros in front if there are too few.
abbrev counted : ℕ → Bytes → Bytes
counted n bs = drop (length bs - n) (zeros (n - length bs) ++ bs)

pub length-counted : (n : ℕ) (bs : Bytes) → n ≡ length (counted n bs)
length-counted n bs = omega (
  arith,
  length-drop (length bs - n) (zeros (n - length bs) ++ bs),
  length-append (zeros (n - length bs)) bs,
  length-zeros (n - length bs),
)

counted_all : (bs : Bytes) → counted (length bs) bs ≡ bs
counted_all bs =
    let none_over : length bs - length bs ≡ 0 = omega arith in
    ap (λ k. drop k (zeros k ++ bs)) none_over

counted-append :
    (n : ℕ) (bs bytes : Bytes) → counted (n + length bytes) (bs ++ bytes) ≡ counted n bs ++ bytes
counted-append n bs bytes =
    let over : length (bs ++ bytes) - (n + length bytes) ≡ length bs - n =
      omega (arith, length-append bs bytes) in
    let under : (n + length bytes) - length (bs ++ bytes) ≡ n - length bs =
      omega (arith, length-append bs bytes) in
    ap (λ k. drop k (zeros ((n + length bytes) - length (bs ++ bytes)) ++ (bs ++ bytes))) over
    ∙ ap (λ k. drop (length bs - n) (zeros k ++ (bs ++ bytes))) under
    ∙ ap (drop (length bs - n)) (sym (append_assoc (zeros (n - length bs)) bs bytes))
    ∙ drop-append (length bs - n) (zeros (n - length bs) ++ bs) bytes
        (omega (arith, length-append (zeros (n - length bs)) bs))

module _ {H : Type 0} (update : H → Bytes → H) where
  -- What the visitor was shown, as far as it was counted.
  abbrev pub shown : Visited H → Bytes
  shown s = counted s.bytes (joined s.visits)

  -- That is all of it, where the count is right.
  pub shown_all : (s : Visited H) → s.bytes ≡ length (joined s.visits) → shown s ≡ joined s.visits
  shown_all s right = ap (λ n. counted n (joined s.visits)) right ∙ counted_all (joined s.visits)

  visitor-appended :
      (bytes : Bytes) (s s' : Visited H)
      → visitor_append update bytes s ≡ ok s'
      → (s'.visits ≡ s.visits ++ bytes ∷ []) × (s'.bytes ≡ s.bytes + length bytes)
  visitor-appended bytes s s' e = unfold visitor_append in ground arith

  pub visitor-appends :
      (bytes : Bytes) (s s' : Visited H)
      → visitor_append update bytes s ≡ ok s'
      → shown s' ≡ shown s ++ bytes
  visitor-appends bytes s s' e =
      let (visits, count) = visitor-appended bytes s s' e in
      ap (λ k. counted k (joined s'.visits)) count
      ∙ ap (λ v. counted (s.bytes + length bytes) (joined v)) visits
      ∙ ap (counted (s.bytes + length bytes)) (joined-snoc s.visits bytes)
      ∙ counted-append s.bytes (joined s.visits) bytes

  pub visitor-takes :
      (bytes : Bytes) (s : Visited H) (n : ℕ)
      → s.bytes + (length bytes + n) < u64_mod
      → length bytes ≤ stream_buffer_target
      → (s' : Visited H) × (visitor_append update bytes s ≡ ok s') × (s'.bytes + n < u64_mod)
  unfolding visitor_append
  visitor-takes bytes s n room few =
      let short : ltb stream_buffer_target (length bytes) ≡ false = ground arith in
      let sum : checked_add s.bytes (length bytes) ≡ some (s.bytes + length bytes) = ground arith in
      (
        record {
          hasher = update s.hasher bytes;
          visits = s.visits ++ (bytes ∷ []);
          bytes = s.bytes + length bytes;
        },
        rw (short, sum) refl,
        omega (arith, room),
      )

  abbrev pub visitor : Output (Visited H)
  visitor = record {
    sink = visitor_sink update;
    content = shown;
    position_length = λ s. length-counted s.bytes (joined s.visits);
    appends = visitor-appends;
    Room = λ s n. s.bytes + n < u64_mod;
    takes = visitor-takes;
  }
