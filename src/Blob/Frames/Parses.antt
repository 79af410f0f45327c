-- ===== src/Blob/Frames/Parses.antt =====
-- Reading the delta format from a stream is reading it from the bytes that the stream still gives.
use fornacast.Prelude.{
  ℕ, zero, suc, ◌+◌, ◌*◌, ◌/◌, ◌%◌, ◌^◌, ◌<◌, ◌≡◌, refl, sym, ap, ◌∙◌, Bool, true, false,
  Bool-cases, inl, inr, String, List, [], ◌∷◌, drop, length, Result, ok, err, ltb, ◌==◌, arith,
}
use Prim.Native.Nat.{bit_and, bit_or}
use fornacast.Prelude
use fornacast.Prelude.Bytes.{Bytes}
use fornacast.Prelude.Word.{u64_mod, u64_max}
use fornacast.Blob.Failure.{Error, corrupt}
use fornacast.Blob.Budget.{DecodeWorkBudget}
use fornacast.Blob.Run.{
  Halt, failed, panicked, out_of_rounds, Ran, Decode, Later, Later-refl, Later-trans, Later-Bounded,
  Bounded, Gives-imply, Succeeds, from_string, reassociate, reading,
}
use fornacast.Blob.Run.Keeps.{Keeps, Keeps-imply}
use fornacast.Blob.Stream.{InflatedStream, read_required_byte}
use fornacast.Blob.Stream.Inflating.{Inflation}
use fornacast.Blob.Stream.Refills.{Pending}
use fornacast.Blob.Stream.Reads.{read_required_byte-Pending}
use fornacast.Blob.Delta.{
  read_list, varint_rounds, decode_delta_varint, copy_field, offset_fields, size_fields,
  decode_delta_instruction,
}
use fornacast.Blob.Frames.{stream_reader}

module _ (G : Type 0) {A S : Type 0} (P : ℕ × S → Type 0) (Q : A × S → Type 0)
    (read : S → Decode (ℕ × S))
    (f : ℕ × (S × DecodeWorkBudget) → Result Halt (A × (S × DecodeWorkBudget))) where
  -- A parser that reads a byte.
  parse-bind :
      (s : S) (b : DecodeWorkBudget)
      → Keeps G b P (read s b)
      → ((a : ℕ) (s' : S) (b' : DecodeWorkBudget)
          → Later b b'
          → P (a, s')
          → Keeps G b' Q (reassociate (f (a, (s', b')))))
      → Keeps G b Q (reassociate (Prelude.◌>>=◌ (reading read (s, b)) f))
  parse-bind s b h next = go (read s b) h
    where
      go :
          (r : Ran (ℕ × S))
          → Keeps G b P r
          → Keeps G b Q (
              reassociate (
                Prelude.◌>>=◌ {E = Halt}
                  (elim r as (λ x. Result Halt (ℕ × (S × DecodeWorkBudget))) [
                    | ok ((a, s'), b') ↦ ok (a, (s', b'))
                    | err h ↦ err h
                  ])
                  f))
      go (ok ((a, s'), b')) (l, p) =
          Gives-imply G (λ c b''. Later b' b'' × Q c) (λ c b''. Later b b'' × Q c)
            (reassociate (f (a, (s', b')))) (λ c b'' (k, q). (Later-trans b b' b'' l k, q))
            (next a s' b' l p)
      go (err (failed e)) h = h
      go (err panicked) h = absurd h
      go (err out_of_rounds) h = absurd h

module _ (G : Type 0) {A B S : Type 0} (P : A × S → Type 0) (Q : B × S → Type 0) where
  -- A parser that goes on with what another one gives.
  reassociate-bind :
      (r : Result Halt (A × (S × DecodeWorkBudget)))
      (f : A × (S × DecodeWorkBudget) → Result Halt (B × (S × DecodeWorkBudget)))
      (b : DecodeWorkBudget)
      → Keeps G b P (reassociate r)
      → ((a : A) (s' : S) (b' : DecodeWorkBudget)
          → Later b b'
          → P (a, s')
          → Keeps G b' Q (reassociate (f (a, (s', b')))))
      → Keeps G b Q (reassociate (Prelude.◌>>=◌ r f))
  reassociate-bind (ok (a, (s', b'))) f b (l, p) next =
      Gives-imply G (λ c b''. Later b' b'' × Q c) (λ c b''. Later b b'' × Q c)
        (reassociate (f (a, (s', b')))) (λ c b'' (k, q). (Later-trans b b' b'' l k, q))
        (next a s' b' l p)
  reassociate-bind (err (failed e)) f b h next = h
  reassociate-bind (err panicked) f b h next = absurd h
  reassociate-bind (err out_of_rounds) f b h next = absurd h

module _ {D : Type 0} (z : Inflation D) (G : Type 0) (total : ℕ) where
  -- The parser of a list gives the value and what is left behind it.
  abbrev pub Agrees : {A : Type 0} → Result Error (A × Bytes) → A × InflatedStream D → Type 0
  Agrees parsed r = (left : Bytes) × (parsed ≡ ok (r.0, left)) × Pending z G total r.1 left

  varint-byte :
      (rounds i value : ℕ) (left : Bytes)
      → Succeeds (varint_rounds corrupt read_list (suc rounds) i value left)
      → 0 < length left
  unfolding varint_rounds read_list
  varint-byte rounds i value [] fine = absurd fine
  varint-byte rounds i value (x ∷ left) fine = omega arith

  read_list-byte :
      {A : Type 0} (left : Bytes) (f : ℕ × Bytes → Result Error A)
      → Succeeds (Prelude.◌>>=◌ (read_list left) f)
      → 0 < length left
  unfolding read_list
  read_list-byte [] f fine = absurd fine
  read_list-byte (x ∷ left) f fine = omega arith

  bind-first :
      {A B : Type 0} (r : Result Error A) (f : A → Result Error B)
      → Succeeds (Prelude.◌>>=◌ r f)
      → Succeeds r
  bind-first (ok a) f fine = tt
  bind-first (err e) f fine = absurd fine

  varint_rounds-Agrees :
      (rounds i value : ℕ) (s : InflatedStream D) (left : Bytes) (b : DecodeWorkBudget)
      → Bounded b
      → Pending z G total s left
      → (G → Succeeds (varint_rounds corrupt read_list rounds i value left))
      → Keeps G b (Agrees (varint_rounds corrupt read_list rounds i value left)) (
          reassociate
            (varint_rounds from_string (stream_reader z.inflater z.read) rounds i value (s, b)))
  unfolding varint_rounds
  varint_rounds-Agrees zero i value s left b bound pending fine = λ g. absurd (fine g)
  varint_rounds-Agrees (suc rounds) i value s left b bound pending fine =
      parse-bind G (λ r. (left ≡ r.0 ∷ drop 1 left) × Pending z G total r.1 (drop 1 left)) _
        (read_required_byte z.inflater z.read) _ s b
        (read_required_byte-Pending z G total s left b bound pending
          λ g. varint-byte rounds i value left (fine g))
        λ byte s' b' l (first, pending').
          elim (Bool-cases (ltb (u64_max / 2 ^ (i * 7)) (bit_and byte 0x7f))) [
            | inl over ↦
                let bad : Succeeds
                      (varint_rounds corrupt read_list (suc rounds) i value (byte ∷ drop 1 left))
                    → ⊥ =
                  unfold read_list in rw over (λ s. s) in
                rw over λ g. absurd (bad (rw first at fine g))
            | inr fits ↦ elim (Bool-cases (bit_and byte 0x80 == 0)) [
              | inl last ↦
                  rw (fits, last)
                    (
                      Later-refl b',
                      (drop 1 left, rw first (unfold read_list in rw (fits, last)), pending'),
                    )
              | inr more ↦
                  let value' = bit_or value ((bit_and byte 0x7f * 2 ^ (i * 7)) % u64_mod) in
                  let step : varint_rounds corrupt read_list (suc rounds) i value
                        (byte ∷ drop 1 left)
                      ≡ varint_rounds corrupt read_list rounds (i + 1) value' (drop 1 left) =
                    unfold read_list in rw (fits, more) in
                  rw (fits, more)
                    (Keeps-imply G
                      (Agrees (varint_rounds corrupt read_list rounds (i + 1) value' (drop 1 left)))
                      (Agrees (varint_rounds corrupt read_list (suc rounds) i value left)) b'
                      (reassociate (
                        varint_rounds from_string (stream_reader z.inflater z.read) rounds (i + 1)
                          value' (s', b')))
                      (λ r (behind, e, now). (
                        behind,
                        ap (varint_rounds corrupt read_list (suc rounds) i value) first ∙ step ∙ e,
                        now,
                      ))
                      (varint_rounds-Agrees rounds (i + 1) value' s' (drop 1 left) b'
                        (Later-Bounded b b' l bound) pending' λ g. rw step at rw first at fine g))
            ]
          ]

  pub decode_delta_varint-Agrees :
      (s : InflatedStream D) (left : Bytes) (b : DecodeWorkBudget)
      → Bounded b
      → Pending z G total s left
      → (G → Succeeds (decode_delta_varint corrupt read_list left))
      → Keeps G b
          (Agrees (decode_delta_varint corrupt read_list left))
          (reassociate (decode_delta_varint from_string (stream_reader z.inflater z.read) (s, b)))
  unfolding decode_delta_varint
  decode_delta_varint-Agrees s left b bound pending fine =
      varint_rounds-Agrees 10 0 0 s left b bound pending fine

  copy_field-Agrees :
      (opcode : ℕ) (fields : List (ℕ × ℕ)) (value : ℕ) (s : InflatedStream D) (left : Bytes)
      (b : DecodeWorkBudget)
      → Bounded b
      → Pending z G total s left
      → (G → Succeeds (copy_field read_list opcode fields value left))
      → Keeps G b
          (Agrees (copy_field read_list opcode fields value left))
          (reassociate (copy_field (stream_reader z.inflater z.read) opcode fields value (s, b)))
  unfolding copy_field
  copy_field-Agrees opcode [] value s left b bound pending fine =
      (Later-refl b, (left, refl, pending))
  copy_field-Agrees opcode ((flag, shift) ∷ fields) value s left b bound pending fine =
      elim (Bool-cases (bit_and opcode flag == 0)) [
        | inl unset ↦
            rw unset
              (copy_field-Agrees opcode fields value s left b bound pending λ g. rw unset at fine g)
        | inr given ↦
            let behind : ℕ × Bytes → Result Error (ℕ × Bytes) = λ x.
              copy_field read_list opcode fields (bit_or value ((x.0 * 2 ^ shift) % u64_mod)) x.1 in
            rw given (
              parse-bind G (λ r. (left ≡ r.0 ∷ drop 1 left) × Pending z G total r.1 (drop 1 left))
                (Agrees (Prelude.◌>>=◌ (read_list left) behind))
                (read_required_byte z.inflater z.read) _ s b
                (read_required_byte-Pending z G total s left b bound pending
                  λ g. read_list-byte left behind (rw given at fine g))
                λ byte s' b' l (first, pending').
                  let value' = bit_or value ((byte * 2 ^ shift) % u64_mod) in
                  let step : Prelude.◌>>=◌ (read_list left) behind
                      ≡ copy_field read_list opcode fields value' (drop 1 left) =
                    ap (λ l. Prelude.◌>>=◌ (read_list l) behind) first ∙ unfold read_list in refl in
                  Keeps-imply G (Agrees (copy_field read_list opcode fields value' (drop 1 left)))
                    (Agrees (Prelude.◌>>=◌ (read_list left) behind)) b'
                    (reassociate
                      (copy_field (stream_reader z.inflater z.read) opcode fields value' (s', b')))
                    (λ r (rest, e, now). (rest, step ∙ e, now))
                    (copy_field-Agrees opcode fields value' s' (drop 1 left) b'
                      (Later-Bounded b b' l bound) pending'
                      λ g.
                        let ok_here : Succeeds (Prelude.◌>>=◌ (read_list left) behind) =
                          rw given at fine g in
                        rw step at ok_here))
      ]

  pub decode_delta_instruction-Agrees :
      (opcode : ℕ) (s : InflatedStream D) (left : Bytes) (b : DecodeWorkBudget)
      → Bounded b
      → Pending z G total s left
      → (G → Succeeds (decode_delta_instruction corrupt opcode read_list left))
      → Keeps G b (Agrees (decode_delta_instruction corrupt opcode read_list left)) (
          reassociate
            (decode_delta_instruction from_string opcode (stream_reader z.inflater z.read) (s, b)))
  unfolding decode_delta_instruction
  decode_delta_instruction-Agrees opcode s left b bound pending fine =
      elim (Bool-cases (opcode == 0)) [
        | inl reserved ↦ rw reserved λ g. absurd (rw reserved at fine g)
        | inr some_opcode ↦ elim (Bool-cases (bit_and opcode 0x80 == 0)) [
          | inl inserts ↦ rw (some_opcode, inserts) (Later-refl b, (left, refl, pending))
          | inr copies ↦
              rw (some_opcode, copies)
                (reassociate-bind G (Agrees (copy_field read_list opcode offset_fields 0 left)) _
                  (copy_field (stream_reader z.inflater z.read) opcode offset_fields 0 (s, b)) _ b
                  (copy_field-Agrees opcode offset_fields 0 s left b bound pending λ g.
                    bind-first (copy_field read_list opcode offset_fields 0 left) _
                      (rw (some_opcode, copies) at fine g))
                  λ offset s' b' l (left', e, pending').
                    let bound' = Later-Bounded b b' l bound in
                    reassociate-bind G (Agrees (copy_field read_list opcode size_fields 0 left')) _
                      (copy_field (stream_reader z.inflater z.read) opcode size_fields 0 (s', b')) _
                      b'
                      (copy_field-Agrees opcode size_fields 0 s' left' b' bound' pending' λ g.
                        bind-first (copy_field read_list opcode size_fields 0 left') _
                          (rw e at rw (some_opcode, copies) at fine g))
                      λ size s'' b'' l' (left'', e', pending'').
                        (Later-refl b'', (left'', rw (e, e') refl, pending'')))
        ]
      ]
